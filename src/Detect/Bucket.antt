-- ===== src/Detect/Bucket.antt =====
-- Tumbling buckets of src/app/detectors/base.py: where a bucket begins, and what rolling does.
use sentraxis.Prelude.{
  ℕ, zero, suc, ◌+◌, ◌-◌, ◌*◌, ◌/◌, ◌%◌, ◌≤◌, ◌<◌, ◌≡◌, refl, subst, sym, ◌⊎◌, inl, inr, Option,
  some, List, [], ◌∷◌, leb, leb→le, length, arith, Bool-cases,
}
use sentraxis.Detect.Float.{Float}
use sentraxis.Detect.Base.{
  no_extra, second, bucket_start_for, MetricState, finalize, roll_loop, roll_from, roll_buckets,
}

grows : (k start w : ℕ) {b : ℕ} → b ≡ start + w + k * w → b ≡ start + suc k * w
grows k start w e = omega arith

div_round : (s w : ℕ) → 0 < w → (s - s % w ≤ s) × (s < s - s % w + w) × ((s - s % w) % w ≡ 0)
div_round s w pos = grind arith

times_div : (n : ℕ) → n * second / second ≡ n
times_div n = omega arith

-- The bucket of a stamp contains it and begins at a whole multiple of the window.
pub bucket_start_for_bounds :
    (ts w : ℕ)
    → 0 < w
    → (bucket_start_for ts w ≤ ts)
      × (ts < bucket_start_for ts w + w * second)
      × ((bucket_start_for ts w / second) % w ≡ 0)
unfolding bucket_start_for
bucket_start_for_bounds ts w pos =
    let (a, b, c) = div_round (ts / second) w pos in
    (omega arith, omega arith, rw (times_div (ts / second - ts / second % w)) c)

module _ (fl : Float) where
  open fl use {F, lit}

  -- What rolling from the bucket at `start` gives: the bucket of `ts` on the same grid, one history
  -- entry for each finished bucket, and a fresh bucket unless none was finished.
  pub record Rolled (ts start : ℕ) (s : MetricState fl) (r : Option (List F × MetricState fl))
      : Type 0 where
    pub finalized : List F
    pub state : MetricState fl
    pub returns : r ≡ some (finalized, state)
    pub begin : ℕ
    pub begins : state.cur_bucket_start ≡ some begin
    pub grid : begin ≡ start + length finalized * (s.window_seconds * second)
    pub not_after : begin ≤ ts
    pub before_end : ts < begin + s.window_seconds * second
    pub counted : state.n ≡ s.n + length finalized
    pub window : state.window_seconds ≡ s.window_seconds
    pub entity : state.entity_id ≡ s.entity_id
    pub fresh :
        ((finalized ≡ []) × (begin ≡ start) × (state ≡ s))
        ⊎ ((start < begin) × (state.cur_extra ≡ no_extra) × (state.cur_value ≡ lit 0))

  -- A loop with enough fuel for the distance to the stamp ends.
  pub roll_loop-Rolled :
      (fuel ts start : ℕ) (s : MetricState fl)
      → 0 < s.window_seconds
      → s.cur_bucket_start ≡ some start
      → start ≤ ts
      → ts - start < fuel
      → Rolled ts start s (roll_loop fl fuel ts start s)
  unfolding roll_loop finalize
  roll_loop-Rolled zero ts start s pos at' le enough = absurd (omega arith)
  roll_loop-Rolled (suc fuel) ts start s pos at' le enough =
      elim (Bool-cases (leb (start + s.window_seconds * second) ts)) [
        | inr last ↦ record {
          finalized = [];
          state = s;
          returns = rw last;
          begin = start;
          begins = at';
          grid = omega arith;
          not_after = le;
          before_end = ground arith;
          counted = omega arith;
          window = refl;
          entity = refl;
          fresh = inl (refl, refl, refl);
        }
        | inl more ↦
            let ih =
              roll_loop-Rolled fuel ts (start + s.window_seconds * second) (finalize fl start s) pos
                refl (leb→le _ ts more) (omega (arith, leb→le _ ts more)) in
            record {
              finalized = s.cur_value ∷ ih.finalized;
              state = ih.state;
              returns = rw (more, ih.returns, roll_loop);
              begin = ih.begin;
              begins = ih.begins;
              grid = grows (length ih.finalized) start (s.window_seconds * second) ih.grid;
              not_after = ih.not_after;
              before_end = ih.before_end;
              counted = omega (arith, ih.counted);
              window = ih.window;
              entity = ih.entity;
              fresh = inr (later start s pos ih);
            }
      ]
    where
      later :
          (start : ℕ) (s : MetricState fl)
          → 0 < s.window_seconds
          → (r : Rolled ts
              (start + s.window_seconds * second)
              (finalize fl start s)
              (roll_loop fl fuel ts (start + s.window_seconds * second) (finalize fl start s)))
          → (start < r.begin) × (r.state.cur_extra ≡ no_extra) × (r.state.cur_value ≡ lit 0)
      later start s pos r = elim r.fresh [
        | inl (_, b, same) ↦ (rw b (omega arith), rw same, rw same)
        | inr (b, e, v) ↦ (omega arith, e, v)
      ]

  pub roll_buckets-Rolled :
      (ts start : ℕ) (s : MetricState fl)
      → 0 < s.window_seconds
      → s.cur_bucket_start ≡ some start
      → start ≤ ts
      → Rolled ts start s (roll_buckets fl s ts)
  unfolding roll_buckets roll_from
  roll_buckets-Rolled ts start s pos at' le =
      subst (λ o. Rolled ts start s (roll_from fl o s ts)) (sym at')
        (roll_loop-Rolled (suc ts) ts start s pos at' le (omega arith))
