-- ===== src/Detect/Engine.antt =====
-- The loop that both detector classes of src/app/detectors share: `process` groups a batch by
-- source entity and feeds each entity's events through its stored state. What a class does with an
-- event after rolling its buckets is the argument `observe`.
use sentraxis.Prelude.{
  ℕ, Bool, false, Option, none, some, List, [], ◌∷◌, ◌++◌, ltb, keep, ◌==◌, if◌then◌else◌,
}
use sentraxis.Detect.Float.{Float}
use sentraxis.Detect.Base.{
  EventView, no_extra, bucket_start_for, MetricState, Detection, roll_buckets,
}

infixl 5 ◌>>=◌
abbrev pub ◌>>=◌ {ℓ κ} : {A : Type ℓ} {B : Type κ} → Option A → (A → Option B) → Option B
none >>= f = none
some a >>= f = f a

-- A sorted list without repetition, as `sorted(set(...))` yields.
unfoldable pub insert_sorted : ℕ → List ℕ → List ℕ
insert_sorted x [] = x ∷ []
insert_sorted x (y ∷ ys) =
    if ltb x y then x ∷ y ∷ ys else if x == y then y ∷ ys else y ∷ insert_sorted x ys

unfoldable pub entity_ids : List EventView → List ℕ
entity_ids [] = []
entity_ids (e ∷ es) = insert_sorted e.src_entity_id (entity_ids es)

module _ (fl : Float) where
  open fl use {lit}

  abbrev pub State : Type 0
  State = MetricState fl

  abbrev pub Observe : Type 0
  Observe = State → EventView → State × Option (Detection fl)

  -- `state.cur_bucket_start is not None and ev_bucket < state.cur_bucket_start`
  unfoldable pub is_late : ℕ → Option ℕ → Bool
  is_late ev_bucket none = false
  is_late ev_bucket (some start) = ltb ev_bucket start

  unfoldable pub cons_option : Option (Detection fl) → List (Detection fl) → List (Detection fl)
  cons_option none ds = ds
  cons_option (some d) ds = d ∷ ds

  module _ (window_s : ℕ) (observe : Observe) where
    unfoldable pub visit : State → EventView → Option (State × Option (Detection fl))
    visit s ev =
        if is_late (bucket_start_for ev.ts window_s) s.cur_bucket_start
        then some (s, none)
        else (roll_buckets fl s ev.ts >>= λ (finalized, rolled). some (observe rolled ev))

    unfoldable pub run_entity : State → List EventView → Option (List (Detection fl) × State)
    run_entity s [] = some ([], s)
    run_entity s (ev ∷ evs) =
        visit s ev >>= λ (s', d). run_entity s' evs >>= λ (ds, s''). some (cons_option d ds, s'')

    -- `_load` and `_save` over the rows of one metric.
    unfoldable pub load : ℕ → List State → State
    load entity_id [] = record {
      entity_id = entity_id;
      window_seconds = window_s;
      cur_bucket_start = none;
      cur_value = lit 0;
      cur_extra = no_extra;
      mean = lit 0;
      m2 = lit 0;
      n = 0;
    }
    load entity_id (s ∷ ss) = if s.entity_id == entity_id then s else load entity_id ss

    unfoldable pub save : State → List State → List State
    save s [] = s ∷ []
    save s (x ∷ xs) = if x.entity_id == s.entity_id then s ∷ xs else x ∷ save s xs

    unfoldable pub process_ids :
        List ℕ → List EventView → List State → Option (List (Detection fl) × List State)
    process_ids [] events rows = some ([], rows)
    process_ids (i ∷ is') events rows =
        run_entity (load i rows) (keep (λ e. e.src_entity_id == i) events) >>= λ (ds, s).
        process_ids is' events (save s rows) >>= λ (more, rows'). some (ds ++ more, rows')

    unfoldable pub process : List EventView → List State → Option (List (Detection fl) × List State)
    process events rows = process_ids (entity_ids events) events rows
