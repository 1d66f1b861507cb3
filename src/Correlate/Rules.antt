-- ===== src/Correlate/Rules.antt =====
-- cluster_by_entity_and_time of src/app/correlation/rules.py. A stamp is a number of microseconds,
-- a score a number of ten-thousandths.
use sentraxis.Prelude.{
  ℕ, ◌-◌, ◌*◌, Bool, false, Option, none, some, List, [], ◌∷◌, ◌++◌, String, ◌&&◌, ◌||◌, ltb, ◌==◌,
  keep, if◌then◌else◌,
}
use sentraxis.Detect.Base.{second}

pub record DetectionFact : Type 0 where
  pub detection_id : ℕ
  pub entity_id : ℕ
  pub detector : String
  pub detector_version : ℕ
  pub score : ℕ
  pub severity : ℕ
  pub event_ts : ℕ

-- The order of the keys (entity_id, event_ts, detection_id).
unfoldable pub fact_ltb : DetectionFact → DetectionFact → Bool
fact_ltb f g =
    ltb f.entity_id g.entity_id
    || f.entity_id == g.entity_id
      && (ltb f.event_ts g.event_ts
          || f.event_ts == g.event_ts && ltb f.detection_id g.detection_id)

-- `sorted(facts, key=...)`, which keeps the order of equal keys.
unfoldable pub insert_fact : DetectionFact → List DetectionFact → List DetectionFact
insert_fact f [] = f ∷ []
insert_fact f (g ∷ gs) =
    let rest = insert_fact f gs in if fact_ltb g f then g ∷ rest else f ∷ g ∷ gs

unfoldable pub sorted : List DetectionFact → List DetectionFact
sorted [] = []
sorted (f ∷ fs) = insert_fact f (sorted fs)

-- `current[-1]`
unfoldable pub last_of : List DetectionFact → Option DetectionFact
last_of [] = none
last_of (f ∷ []) = some f
last_of (f ∷ g ∷ gs) = last_of (g ∷ gs)

unfoldable pub is_gap : ℕ → Option DetectionFact → DetectionFact → Bool
is_gap window_seconds none row = false
is_gap window_seconds (some last) row = ltb (window_seconds * second) (row.event_ts - last.event_ts)

unfoldable pub close : List DetectionFact → List (List DetectionFact)
close [] = []
close (f ∷ fs) = (f ∷ fs) ∷ []

-- The inner loop over one entity's rows, with the cluster under way.
unfoldable pub split_rows : ℕ → List DetectionFact → List DetectionFact → List (List DetectionFact)
split_rows window_seconds current [] = close current
split_rows window_seconds current (row ∷ rows) =
    let cut = split_rows window_seconds (row ∷ []) rows in
    let kept = split_rows window_seconds (current ++ (row ∷ [])) rows in
    if is_gap window_seconds (last_of current) row then current ∷ cut else kept

-- The keys of `by_entity` in order.
unfoldable pub insert_id : ℕ → List ℕ → List ℕ
insert_id i [] = i ∷ []
insert_id i (j ∷ js) =
    let rest = insert_id i js in if ltb i j then i ∷ j ∷ js else if i == j then j ∷ js else j ∷ rest

unfoldable pub entities_of : List DetectionFact → List ℕ
entities_of [] = []
entities_of (f ∷ fs) = insert_id f.entity_id (entities_of fs)

unfoldable pub cluster_entities : ℕ → List ℕ → List DetectionFact → List (List DetectionFact)
cluster_entities window_seconds [] facts = []
cluster_entities window_seconds (i ∷ is') facts =
    split_rows window_seconds [] (keep (λ f. f.entity_id == i) facts)
    ++ cluster_entities window_seconds is' facts

unfoldable pub cluster_by_entity_and_time : List DetectionFact → ℕ → List (List DetectionFact)
cluster_by_entity_and_time facts window_seconds =
    cluster_entities window_seconds (entities_of (sorted facts)) (sorted facts)
