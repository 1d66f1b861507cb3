-- ===== src/Detect/Breadth.antt =====
-- The size at which the detector of src/app/detectors/port_velocity.py fires.
use sentraxis.Prelude.{suc, ◌≤◌, ◌≡◌, ◌⊎◌, true, Option, none, some, length}
use sentraxis.Detect.Float.{Float}
use sentraxis.Detect.Base.{Extra, Detection, score_distinct_ports}
use sentraxis.Detect.Engine.{State}
use sentraxis.Detect.Ports.{DistinctPortVelocityDetector}

module _ (fl : Float) (det : DistinctPortVelocityDetector) where
  -- A state that has not fired holds at most the threshold's number of ports.
  abbrev pub Quiet : Extra → Type 0
  Quiet e = (e.fired ≡ true) ⊎ (length e.ports ≤ det.port_threshold)

  -- The detection carries one port more than the threshold, and the score of that number.
  abbrev pub Exact : Detection fl → Type 0
  Exact d =
      (d.observed ≡ fl.of_nat (suc det.port_threshold))
      × (d.score ≡ (score_distinct_ports fl (suc det.port_threshold) det.port_threshold).0)
      × (d.severity ≡ (score_distinct_ports fl (suc det.port_threshold) det.port_threshold).1)

  abbrev ExactOption : Option (Detection fl) → Type 0
  ExactOption none = Unit
  ExactOption (some d) = Exact d

  abbrev Settled : State fl × Option (Detection fl) → Type 0
  Settled r = Quiet (r.0).cur_extra × ExactOption r.1

  record Seen (r : Option (State fl × Option (Detection fl))) : Type 0 where
    state : State fl
    fired : Option (Detection fl)
    returns : r ≡ some (state, fired)
    window : state.window_seconds ≡ det.window_s
    quiet : Quiet state.cur_extra
    exact : ExactOption fired
