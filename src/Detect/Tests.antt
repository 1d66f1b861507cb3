-- ===== src/Detect/Tests.antt =====
-- A float of whole ten-thousandths, a state and some events, and the theorems at them.
use sentraxis.Prelude.{ℕ, ◌+◌, ◌-◌, ◌*◌, ◌/◌, Bool, true, none, some, List, [], ◌∷◌, ltb, leb}
use sentraxis.Detect.Float.{Float}
use sentraxis.Detect.Base.{EventView, second, MetricState, Detection, breadth}
use sentraxis.Detect.Worker.{Db, Detector, fetch_batch, tick}
use sentraxis.Detect.Delivery.{Ends, tick_lem}
use sentraxis.Detect.Rate.{RateDeviationDetector}
use sentraxis.Detect.Ports.{DistinctPortVelocityDetector}

abbrev fixed : Float
fixed = record {
  F = ℕ;
  lit = λ n. n;
  of_nat = λ n. n * 10000;
  add = λ a b. a + b;
  sub = λ a b. a - b;
  mul = λ a b. a * b / 10000;
  div = λ a b. a * 10000 / b;
  sqrt = λ a. a;
  lt = ltb;
  le = leb;
  infinity = 1_000_000_000_000;
  tiny = 0;
  round_to = λ places a. a;
}

abbrev seen : MetricState fixed
seen = record {
  entity_id = 1;
  window_seconds = 60;
  cur_bucket_start = some 0;
  cur_value = 10000;
  cur_extra = record { fired = Bool.false; ports = 80 ∷ [] };
  mean = 10000;
  m2 = 0;
  n = 5;
}

abbrev at_port : ℕ → ℕ → EventView
at_port t port = record {
  id = t;
  ts = t * second;
  src_entity_id = 1;
  dst_entity_id = none;
  dst_port = port;
}

abbrev sweep : List EventView
sweep = at_port 1 22 ∷ at_port 2 23 ∷ at_port 70 24 ∷ []

abbrev ports_detector : DistinctPortVelocityDetector
ports_detector = record { window_s = 60; port_threshold = 1 }

abbrev rate_detector : RateDeviationDetector fixed
rate_detector = record { window_s = 60; z_trigger = 10000; z_cap = 30000; min_history = 3 }

abbrev noisy : Detector fixed (List (MetricState fixed))
noisy views states = (some (noise ∷ noise ∷ []), states)
  where
    noise : Detection fixed
    noise = record {
      event_id = 1;
      entity_id = 1;
      detector = "noisy";
      detector_version = 1;
      score = 5000;
      severity = 2;
      bucket_start = some 0;
      observed = 20000;
      measure = breadth 1 [];
    }

abbrev backlog : Db fixed (List (MetricState fixed))
backlog = record { events = sweep; detections = []; cursor = some 1; states = [] }

tick_lem_example :
    Ends fixed
      (List (MetricState fixed))
      (λ d. true)
      (noisy ∷ [])
      (fetch_batch fixed (List (MetricState fixed)) 1 backlog)
      backlog
      (tick fixed (List (MetricState fixed)) (λ d. true) (noisy ∷ []) 1 backlog)
tick_lem_example = tick_lem fixed (List (MetricState fixed)) (λ d. true) (noisy ∷ []) 1 backlog tt
