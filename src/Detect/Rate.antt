-- ===== src/Detect/Rate.antt =====
-- src/app/detectors/rate_deviation.py: what the detector does with one event after rolling the
-- buckets.
use sentraxis.Prelude.{
  ℕ, ◌≡◌, refl, inl, inr, Bool, true, false, Option, none, some, [], ◌&&◌, not, leb, if◌then◌else◌,
}
use sentraxis.Detect.Float.{Float}
use sentraxis.Detect.Base.{EventView, Extra, Detection, rate, std, zscore, detection_from_z}
use sentraxis.Detect.Engine.{State, Observe}
use sentraxis.Detect.Once.{Observed}

module _ (fl : Float) where
  open fl use {F, lit, add, round_to}

  pub record RateDeviationDetector : Type 0 where
    pub window_s : ℕ
    pub z_trigger : F
    pub z_cap : F
    pub min_history : ℕ

  -- `state.cur_value += 1.0`
  unfoldable pub counted : State fl → State fl
  counted s = record s { cur_value = add s.cur_value (lit 10000) }

  -- `{"fired": True}`
  abbrev pub fired_extra : Extra
  fired_extra = record { fired = true; ports = [] }

  unfoldable pub rate_detection : State fl → EventView → F → F × ℕ → Detection fl
  rate_detection s ev z scored = record {
    event_id = ev.id;
    entity_id = s.entity_id;
    detector = "rate_deviation";
    detector_version = 1;
    score = scored.0;
    severity = scored.1;
    bucket_start = s.cur_bucket_start;
    observed = s.cur_value;
    measure = rate (round_to 3 s.mean) (round_to 3 (std fl s)) (round_to 2 z) s.n;
  }

  -- What a score, if there is one, adds.
  unfoldable pub fire : State fl → EventView → F → Option (F × ℕ) → State fl × Option (Detection fl)
  fire s ev z none = (s, none)
  fire s ev z (some scored) =
      (record s { cur_extra = fired_extra }, some (rate_detection s ev z scored))

  unfoldable pub observe_counted :
      RateDeviationDetector → State fl → EventView → State fl × Option (Detection fl)
  observe_counted det s ev =
      let z = zscore fl s.cur_value s.mean (std fl s) in
      if not s.cur_extra.fired && leb det.min_history s.n
      then fire s ev z (detection_from_z fl z det.z_trigger det.z_cap (lit 4000))
      else (s, none)

  unfoldable pub observe_rate : RateDeviationDetector → Observe fl
  observe_rate det s ev = observe_counted det (counted s) ev

  fire-Observed :
      (s : State fl) (ev : EventView) (z : F) (o : Option (F × ℕ))
      → s.cur_extra.fired ≡ false
      → Observed fl s (fire s ev z o)
  unfolding fire rate_detection
  fire-Observed s ev z none down = record { window = refl; bucket = refl; fires = inl (refl, refl) }
  fire-Observed s ev z (some scored) down = record {
    window = refl;
    bucket = refl;
    fires = inr (rate_detection s ev z scored, refl, down, refl, refl);
  }

  guarded-Observed :
      (det : RateDeviationDetector) (s : State fl) (ev : EventView) (z : F) (o : Option (F × ℕ))
      (fired history : Bool)
      → s.cur_extra.fired ≡ fired
      → Observed fl s (if not fired && history then fire s ev z o else (s, none))
  guarded-Observed det s ev z o true history e = record {
    window = refl;
    bucket = refl;
    fires = inl (refl, refl);
  }
  guarded-Observed det s ev z o false true e = fire-Observed s ev z o e
  guarded-Observed det s ev z o false false e = record {
    window = refl;
    bucket = refl;
    fires = inl (refl, refl);
  }

  pub observe_rate-Observed :
      (det : RateDeviationDetector) (s : State fl) (ev : EventView)
      → Observed fl s (observe_rate det s ev)
  unfolding observe_rate observe_counted counted
  observe_rate-Observed det s ev =
      let c = counted s in
      let g =
        guarded-Observed det c ev (zscore fl c.cur_value c.mean (std fl c))
          (detection_from_z fl (zscore fl c.cur_value c.mean (std fl c)) det.z_trigger det.z_cap
            (lit 4000))
          c.cur_extra.fired (leb det.min_history c.n) refl in
      record { window = g.window; bucket = g.bucket; fires = g.fires }
