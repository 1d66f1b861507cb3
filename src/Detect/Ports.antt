-- ===== src/Detect/Ports.antt =====
-- src/app/detectors/port_velocity.py: what the detector does with one event after rolling the
-- buckets.
use sentraxis.Prelude.{
  ℕ, ◌≡◌, refl, inl, inr, Bool, true, false, Option, none, some, ◌&&◌, not, ltb, length, take,
  if◌then◌else◌,
}
use sentraxis.Detect.Float.{Float}
use sentraxis.Detect.Base.{EventView, Detection, breadth, score_distinct_ports}
use sentraxis.Detect.Engine.{State, Observe, insert_sorted}
use sentraxis.Detect.Once.{Observed}

pub record DistinctPortVelocityDetector : Type 0 where
  pub window_s : ℕ
  pub port_threshold : ℕ

module _ (fl : Float) where
  open fl use {of_nat}

  -- The port joins the bucket's set, and the value is the size of the set.
  unfoldable pub with_port : State fl → ℕ → State fl
  with_port s port =
      let ports = insert_sorted port s.cur_extra.ports in
      record s {
        cur_value = of_nat (length ports);
        cur_extra = record { fired = s.cur_extra.fired; ports = ports };
      }

  unfoldable pub ports_detection : ℕ → State fl → EventView → ℕ → Detection fl
  ports_detection threshold s ev observed =
      let scored = score_distinct_ports fl observed threshold in
      record {
        event_id = ev.id;
        entity_id = s.entity_id;
        detector = "port_velocity";
        detector_version = 1;
        score = scored.0;
        severity = scored.1;
        bucket_start = s.cur_bucket_start;
        observed = of_nat observed;
        measure = breadth threshold (take 32 s.cur_extra.ports);
      }

  -- `state.cur_extra["fired"] = True`
  unfoldable pub raise_flag : State fl → State fl
  raise_flag s = record s { cur_extra = record { fired = true; ports = s.cur_extra.ports } }

  unfoldable pub observe_with : ℕ → State fl → EventView → State fl × Option (Detection fl)
  observe_with threshold s ev =
      let observed = length s.cur_extra.ports in
      if not s.cur_extra.fired && ltb threshold observed
      then (raise_flag s, some (ports_detection threshold s ev observed))
      else (s, none)

  unfoldable pub observe_ports : DistinctPortVelocityDetector → Observe fl
  observe_ports det s ev = observe_with det.port_threshold (with_port s ev.dst_port) ev

  guarded-Observed :
      (threshold : ℕ) (s : State fl) (ev : EventView) (observed : ℕ) (fired over : Bool)
      → s.cur_extra.fired ≡ fired
      → Observed fl s (
          if not fired && over
          then (raise_flag s, some (ports_detection threshold s ev observed))
          else (s, none))
  unfolding raise_flag ports_detection
  guarded-Observed threshold s ev observed true over e = record {
    window = refl;
    bucket = refl;
    fires = inl (refl, refl);
  }
  guarded-Observed threshold s ev observed false true e = record {
    window = refl;
    bucket = refl;
    fires = inr (ports_detection threshold s ev observed, refl, e, refl, refl);
  }
  guarded-Observed threshold s ev observed false false e = record {
    window = refl;
    bucket = refl;
    fires = inl (refl, refl);
  }

  pub observe_ports-Observed :
      (det : DistinctPortVelocityDetector) (s : State fl) (ev : EventView)
      → Observed fl s (observe_ports det s ev)
  unfolding observe_ports observe_with with_port
  observe_ports-Observed det s ev =
      let c = with_port s ev.dst_port in
      let n = length c.cur_extra.ports in
      let g =
        guarded-Observed det.port_threshold c ev n c.cur_extra.fired (ltb det.port_threshold n)
          refl in
      record { window = g.window; bucket = g.bucket; fires = g.fires }
