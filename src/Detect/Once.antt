-- ===== src/Detect/Once.antt =====
-- The detections of one entity, bucket by bucket, for any detector class of src/app/detectors that
-- sets the flag "fired" when it fires.
use sentraxis.Prelude.{
  ℕ, suc, ◌≤◌, ◌<◌, ◌≡◌, refl, subst, sym, ◌∙◌, ap, ap₂, ◌⊎◌, inl, inr, Bool, true, false, Option,
  none, some, List, [], ◌∷◌, ltb, arith, Bool-cases, Option-cases, if◌then◌else◌,
}
use sentraxis.Detect.Float.{Float}
use sentraxis.Detect.Base.{
  EventView, Extra, no_extra, bucket_start_for, Detection, roll_buckets, roll_from,
}
use sentraxis.Detect.Bucket.{roll_buckets-Rolled, bucket_start_for_bounds}
use sentraxis.Detect.Engine.{State, Observe, is_late, cons_option, visit, run_entity}

module _ (fl : Float) where
  -- The first bucket for which the state can still fire.
  abbrev pub lower_of : Option ℕ → Bool → ℕ
  lower_of none fired = 0
  lower_of (some b) fired = if fired then suc b else b

  abbrev pub lower : State fl → ℕ
  lower s = lower_of s.cur_bucket_start s.cur_extra.fired

  -- The detections' buckets rise strictly, from a bound on.
  abbrev pub Above : ℕ → List (Detection fl) → Type 0
  Above bound [] = Unit
  Above bound (d ∷ ds) = (k : ℕ) × (d.bucket_start ≡ some k) × (bound ≤ k) × Above (suc k) ds

  Above-mono : (a b : ℕ) (ds : List (Detection fl)) → a ≤ b → Above b ds → Above a ds
  Above-mono a b [] le h = tt
  Above-mono a b (d ∷ ds) le (k, e, above, rest) = (k, e, omega arith, rest)

  -- The law of a detector: it keeps the bucket and the window, and fires only with the flag down,
  -- for the current bucket, raising the flag.
  pub record Observed (s : State fl) (r : State fl × Option (Detection fl)) : Type 0 where
    pub window : r.0.window_seconds ≡ s.window_seconds
    pub bucket : r.0.cur_bucket_start ≡ s.cur_bucket_start
    pub fires :
        ((r.1 ≡ none) × (r.0.cur_extra.fired ≡ s.cur_extra.fired))
        ⊎ ((d : Detection fl) × (r.1 ≡ some d)
            × (s.cur_extra.fired ≡ false)
            × (r.0.cur_extra.fired ≡ true)
            × (d.bucket_start ≡ s.cur_bucket_start))

  -- What one visit did.
  pub record Visited (s : State fl) (r : Option (State fl × Option (Detection fl))) : Type 0 where
    pub state : State fl
    pub fired : Option (Detection fl)
    pub returns : r ≡ some (state, fired)
    pub window : state.window_seconds ≡ s.window_seconds
    pub fires :
        ((fired ≡ none) × (lower s ≤ lower state))
        ⊎ ((d : Detection fl) × (k : ℕ) × (fired ≡ some d)
            × (d.bucket_start ≡ some k)
            × (lower s ≤ k)
            × (lower state ≡ suc k))

  module _ (window_s : ℕ) (observe : Observe fl)
      (law : (s : State fl) (ev : EventView) → Observed s (observe s ev)) where
    -- After rolling, with the bucket known.
    observe-Visited :
        (s rolled : State fl) (begin : ℕ) (ev : EventView)
        → rolled.window_seconds ≡ s.window_seconds
        → rolled.cur_bucket_start ≡ some begin
        → lower s ≤ lower rolled
        → Visited s (some (observe rolled ev))
    observe-Visited s rolled begin ev w b le =
        let o = law rolled ev in
        record {
          state = (observe rolled ev).0;
          fired = (observe rolled ev).1;
          returns = refl;
          window = o.window ∙ w;
          fires = elim o.fires [
            | inl (quiet, same) ↦
                inl (quiet, subst (λ n. lower s ≤ n) (sym (ap₂ lower_of o.bucket same)) le)
            | inr (d, hit, down, up, at') ↦ inr (
              d,
              begin,
              hit,
              at' ∙ b,
              subst (λ n. lower s ≤ n) (ap₂ lower_of b down) le,
              ap₂ lower_of (o.bucket ∙ b) up,
            )
          ];
        }

    at_most : (start : ℕ) (fired : Bool) → lower_of (some start) fired ≤ suc start
    at_most start true = omega arith
    at_most start false = omega arith

    join :
        (s t : State fl) (o : Option (Detection fl)) (ds : List (Detection fl))
        → ((o ≡ none) × (lower s ≤ lower t))
          ⊎ ((d : Detection fl) × (k : ℕ) × (o ≡ some d)
              × (d.bucket_start ≡ some k)
              × (lower s ≤ k)
              × (lower t ≡ suc k))
        → Above (lower t) ds
        → Above (lower s) (cons_option fl o ds)
    unfolding cons_option
    join s t o ds (inl (quiet, le)) above = rw quiet (Above-mono (lower s) (lower t) ds le above)
    join s t o ds (inr (d, k, hit, at', le, next)) above =
        rw hit (k, at', le, subst (λ n. Above n ds) next above)

    rolled_lower :
        (s r : State fl) (start begin : ℕ) (finalized : List fl.F)
        → s.cur_bucket_start ≡ some start
        → r.cur_bucket_start ≡ some begin
        → ((finalized ≡ []) × (begin ≡ start) × (r ≡ s))
          ⊎ ((start < begin) × (r.cur_extra ≡ no_extra) × (r.cur_value ≡ fl.lit 0))
        → lower s ≤ lower r
    rolled_lower s r start begin finalized a b (inl (_, _, same)) = rw same (omega arith)
    rolled_lower s r start begin finalized a b (inr (later, clear, _)) =
        let el : lower s ≡ lower_of (some start) s.cur_extra.fired =
          ap (λ o. lower_of o s.cur_extra.fired) a in
        let er : lower r ≡ begin = ap₂ lower_of b (ap (λ (e : Extra). e.fired) clear) in
        omega (arith, el, er, at_most start s.cur_extra.fired)

    Visited-eq :
        (s : State fl) {q r : Option (State fl × Option (Detection fl))}
        → q ≡ r
        → Visited s r
        → Visited s q
    Visited-eq s e v = rw e v

    pub visit_late :
        (s : State fl) (ev : EventView)
        → is_late fl (bucket_start_for ev.ts window_s) s.cur_bucket_start ≡ true
        → visit fl window_s observe s ev ≡ some (s, none)
    unfolding visit
    visit_late s ev e = rw (e, visit)

    pub visit_on :
        (s r : State fl) (finalized : List fl.F) (ev : EventView)
        → is_late fl (bucket_start_for ev.ts window_s) s.cur_bucket_start ≡ false
        → roll_buckets fl s ev.ts ≡ some (finalized, r)
        → visit fl window_s observe s ev ≡ some (observe r ev)
    unfolding visit
    visit_on s r finalized ev e q = rw (e, q, visit)

    pub first_roll :
        (s : State fl) (ts : ℕ)
        → s.cur_bucket_start ≡ none
        → roll_buckets fl s ts
          ≡ some (
            [],
            record s {
              cur_bucket_start = some (bucket_start_for ts s.window_seconds);
              cur_value = fl.lit 0;
              cur_extra = no_extra;
            },
          )
    unfolding roll_buckets roll_from
    first_roll s ts e = ap (λ o. roll_from fl o s ts) e

    pub late_test :
        (ts start : ℕ)
        → 0 < window_s
        → ltb (bucket_start_for ts window_s) start ≡ false
        → start ≤ ts
    late_test ts start pos e = ground (arith, bucket_start_for_bounds ts window_s)

    visit-Visited :
        (s : State fl) (ev : EventView)
        → 0 < window_s
        → s.window_seconds ≡ window_s
        → Visited s (visit fl window_s observe s ev)
    unfolding is_late
    visit-Visited s ev pos w =
        elim (Bool-cases (is_late fl (bucket_start_for ev.ts window_s) s.cur_bucket_start)) [
          | inl late ↦ Visited-eq s (visit_late s ev late) (record {
            state = s;
            fired = none;
            returns = refl;
            window = refl;
            fires = inl (refl, omega arith);
          })
          | inr now ↦ elim (Option-cases s.cur_bucket_start) [
            | inl absent ↦ Visited-eq s (visit_on s _ [] ev now (first_roll s ev.ts absent)) (
                observe-Visited s _ (bucket_start_for ev.ts s.window_seconds) ev refl refl
                  (omega (arith, ap (λ o. lower_of o s.cur_extra.fired) absent)))
            | inr (start, at') ↦
                let le : start ≤ ev.ts =
                  late_test ev.ts start pos
                    (subst (λ o. is_late fl (bucket_start_for ev.ts window_s) o ≡ false) at' now) in
                let r = roll_buckets-Rolled fl ev.ts start s (rw w pos) at' le in
                Visited-eq s (visit_on s r.state r.finalized ev now r.returns) (
                  observe-Visited s r.state r.begin ev r.window r.begins
                    (rolled_lower s r.state start r.begin r.finalized at' r.begins r.fresh))
          ]
        ]

    -- From any stored state with the detector's window, a batch of one entity's events in any order is
    -- processed to the end, and the detections it yields lie in strictly rising buckets, none of them
    -- one for which the state had fired already.
    pub run_entity-Above :
        (evs : List EventView) (s : State fl)
        → 0 < window_s
        → s.window_seconds ≡ window_s
        → (ds : List (Detection fl)) × (after : State fl) × (run_entity fl window_s observe s evs
            ≡ some (ds, after))
          × Above (lower s) ds
          × (after.window_seconds ≡ window_s)
    unfolding run_entity
    run_entity-Above [] s pos w = ([], s, refl, tt, w)
    run_entity-Above (ev ∷ evs) s pos w =
        let v = visit-Visited s ev pos w in
        let (ds, after, e, above, w') = run_entity-Above evs v.state pos (v.window ∙ w) in
        (
          cons_option fl v.fired ds,
          after,
          rw (v.returns, e),
          join s v.state v.fired ds v.fires above,
          w',
        )
