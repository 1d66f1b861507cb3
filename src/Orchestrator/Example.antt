-- ===== src/Orchestrator/Example.antt =====
-- A small database of src/app/workers/orchestrator.py for the tests: one host with an incident,
-- one playbook of high blast radius, and one action that waits for approval.
use sentraxis.Prelude.{◌+◌, Bool, none, some, [], ◌∷◌, Text, codes, length}
use sentraxis.Audit.{Hashing, end}
use sentraxis.Policy.{high, PlaybookDef, v4}
use sentraxis.Orchestrator.Store.{ActionState, pending_approval, ActionRow, Db}
use sentraxis.Orchestrator.Execute.{returned}
use sentraxis.Orchestrator.Tick.{Env}
use sentraxis.Orchestrator.Decide.{Decision}

abbrev pub short_hashing : Hashing
short_hashing = record {
  sha256_hex = λ t. (1000 + length t) ∷ [];
  isoformat = λ n. (200 + n) ∷ [];
  dumps = λ f. [];
}

abbrev pub example_env : Env
example_env = record {
  hashing = short_hashing;
  formats = record {
    ip_address = λ s. some (v4 0x0a000001);
    reason = λ risk threshold detectors external. codes "risk";
  };
  number_text = λ n. n ∷ [];
  settings = record { orch_batch_size = 20; orch_approval_timeout_min = 60; orch_min_risk = 4000 };
  effectors = ("quarantine_host", λ now action entities. (entities, returned end)) ∷ [];
}

abbrev pub quarantine : PlaybookDef
quarantine = record {
  name = "quarantine-internal-host";
  description = "";
  trigger_detectors = "rate_deviation" ∷ [];
  requires_external_source = Bool.false;
  min_risk = 6000;
  blast_radius = high;
  action_type = "quarantine_host";
  version = 1;
}

abbrev pub action_in : ActionState → ActionRow
action_in s = record {
  id = 7;
  incident_id = 1;
  playbook_id = some 1;
  playbook_version = 1;
  action_type = "quarantine_host";
  blast_radius = high;
  entity_id = 3;
  params = record {
    entity_identifier = codes "10.0.0.1";
    reason = codes "risk";
    incident_title = codes "scan";
  };
  state = s;
  attempt = 0;
  result = none;
  decided_by = none;
  decision_reason = none;
  idem_key = none;
  created_at = 5;
  updated_at = 5;
  decided_at = none;
}

abbrev pub waiting_db : Db
waiting_db = record {
  entities =
      record { id = 3; identifier = "10.0.0.1"; status = "active"; quarantined_until = none } ∷ [];
  playbooks = record { id = 1; definition = quarantine; enabled = Bool.true } ∷ [];
  incidents =
      record {
        id = 1;
        entity_id = 3;
        title = codes "scan";
        risk_score = 8000;
        techniques = some "T1046" ∷ [];
      }
      ∷ record {
        id = 2;
        entity_id = 3;
        title = codes "burst";
        risk_score = 9000;
        techniques = none ∷ [];
      }
      ∷ [];
  detections = record { id = 4; detector = "rate_deviation" } ∷ [];
  links = record { incident_id = 2; detection_id = 4 } ∷ [];
  actions = action_in pending_approval ∷ [];
  next_action_id = 8;
  cursor = some 1;
  audit = record { rows = []; next_seq = 1 };
}

abbrev pub decision : Text → Decision
decision why = record {
  action_id = 7;
  decision = "approve";
  approver_email = codes "ann";
  approver_id = 2;
  reason = why;
}
