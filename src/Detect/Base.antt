-- ===== src/Detect/Base.antt =====
-- src/app/detectors/base.py. A stamp is a number of microseconds since the epoch, a window a
-- number of seconds. The dictionary `cur_extra` has at most the keys "fired" and "ports"; a
-- missing key is false or the empty list, as the code reads it.
use sentraxis.Prelude.{
  ℕ, zero, suc, ◌+◌, ◌-◌, ◌*◌, ◌/◌, ◌%◌, Bool, false, Option, none, some, List, [], ◌∷◌, String,
  leb, ltb, max, if◌then◌else◌,
}
use sentraxis.Detect.Float.{Float, min_of, max_of}

pub record EventView : Type 0 where
  pub id : ℕ
  pub ts : ℕ
  pub src_entity_id : ℕ
  pub dst_entity_id : Option ℕ
  pub dst_port : ℕ

pub record Extra : Type 0 where
  pub fired : Bool
  pub ports : List ℕ

abbrev pub no_extra : Extra
no_extra = record { fired = false; ports = [] }

abbrev pub second : ℕ
second = 1_000_000

-- `epoch_seconds - (epoch_seconds % window_seconds)`, as a stamp.
unfoldable pub bucket_start_for : ℕ → ℕ → ℕ
bucket_start_for ts window_seconds = (ts / second - ts / second % window_seconds) * second

module _ (fl : Float) where
  open fl use {F, lit, of_nat, add, sub, mul, div, sqrt, lt, le, infinity, tiny, round_to}

  pub record MetricState : Type 0 where
    pub entity_id : ℕ
    pub window_seconds : ℕ
    pub cur_bucket_start : Option ℕ
    pub cur_value : F
    pub cur_extra : Extra
    pub mean : F
    pub m2 : F
    pub n : ℕ

  pub data Measure : Type 0 where
    rate : (mean std z : F) (history_n : ℕ) → Measure
    breadth : (threshold : ℕ) (ports : List ℕ) → Measure

  pub record Detection : Type 0 where
    pub event_id : ℕ
    pub entity_id : ℕ
    pub detector : String
    pub detector_version : ℕ
    pub score : F
    pub severity : ℕ
    pub bucket_start : Option ℕ
    pub observed : F
    pub measure : Measure

  unfoldable pub std : MetricState → F
  std s = if ltb s.n 2 then lit 0 else sqrt (max_of fl (div s.m2 (of_nat (s.n - 1))) (lit 0))

  unfoldable pub update_welford : F → F → ℕ → F → F × F × ℕ
  update_welford mean m2 n value =
      let n_new = n + 1 in
      let delta = sub value mean in
      let mean_new = add mean (div delta (of_nat n_new)) in
      (mean_new, add m2 (mul delta (sub value mean_new)), n_new)

  unfoldable pub zscore : F → F → F → F
  zscore value mean std =
      if le std tiny
      then (if le value mean then lit 0 else if lt (lit 0) value then infinity else lit 0)
      else div (sub value mean) std

  unfoldable pub severity_for_score : F → ℕ
  severity_for_score score =
      if le (lit 8500) score
      then 4
      else if le (lit 7000) score
      then 3
      else if le (lit 5000) score
      then 2
      else 1

  unfoldable pub score_of_z : F → F → F → F → F
  score_of_z z trigger cap base_score = add base_score (
      mul (sub (lit 10000) base_score)
        (div (sub (min_of fl z cap) trigger) (max_of fl (sub cap trigger) tiny)))

  unfoldable pub detection_from_z : F → F → F → F → Option (F × ℕ)
  detection_from_z z trigger cap base_score =
      if lt z trigger
      then none
      else some (
        round_to 4 (score_of_z z trigger cap base_score),
        severity_for_score (score_of_z z trigger cap base_score),
      )

  unfoldable pub ports_score : ℕ → ℕ → F
  ports_score observed threshold = min_of fl (lit 10000) (
      add (lit 5000)
        (mul (lit 5000) (sub (div (of_nat observed) (of_nat (max threshold 1))) (lit 10000))))

  unfoldable pub score_distinct_ports : ℕ → ℕ → F × ℕ
  score_distinct_ports observed threshold = (
    round_to 4 (ports_score observed threshold),
    severity_for_score (ports_score observed threshold),
  )

  -- One finished bucket: its value goes into the history, and the next bucket begins.
  unfoldable pub finalize : ℕ → MetricState → MetricState
  unfolding update_welford
  finalize start s =
      let (mean, m2, n) = update_welford s.mean s.m2 s.n s.cur_value in
      record s {
        mean = mean;
        m2 = m2;
        n = n;
        cur_bucket_start = some (start + s.window_seconds * second);
        cur_value = lit 0;
        cur_extra = no_extra;
      }

  -- The `while` loop, from the bucket that begins at `start`; `none` means that the fuel ran out.
  unfoldable pub roll_loop : ℕ → ℕ → ℕ → MetricState → Option (List F × MetricState)
  roll_loop zero ts start s = none
  roll_loop (suc fuel) ts start s =
      let rest = roll_loop fuel ts (start + s.window_seconds * second) (finalize start s) in
      if leb (start + s.window_seconds * second) ts
      then elim rest [ none ↦ none | some (finalized, s') ↦ some (s.cur_value ∷ finalized, s') ]
      else some ([], s)

  unfoldable pub roll_from : Option ℕ → MetricState → ℕ → Option (List F × MetricState)
  roll_from none s ts = some (
    [],
    record s {
      cur_bucket_start = some (bucket_start_for ts s.window_seconds);
      cur_value = lit 0;
      cur_extra = no_extra;
    },
  )
  roll_from (some start) s ts = roll_loop (suc ts) ts start s

  unfoldable pub roll_buckets : MetricState → ℕ → Option (List F × MetricState)
  roll_buckets s ts = roll_from s.cur_bucket_start s ts
