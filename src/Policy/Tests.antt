-- ===== src/Policy/Tests.antt =====
-- A playbook and an incident, and the theorems at them.
use sentraxis.Prelude.{◌≡◌, ◌↔◌, true, false, some, [], ◌∷◌, keep, codes}
use sentraxis.Policy.{
  low, PlaybookDef, IncidentContext, v4, Formats, is_external, evaluate_response,
}
use sentraxis.Policy.Network.{IsInternal, IsLoopback6, is_external-iff-IsInternal}
use sentraxis.Policy.Select.{matches, specs_of, evaluate_response-eq-specs_of}

abbrev plain_formats : Formats
plain_formats = record {
  ip_address = λ s. some (v4 0x08080808);
  reason = λ risk threshold detectors external. codes "risk reaches the threshold";
}

abbrev block_scanner : PlaybookDef
block_scanner = record {
  name = "block-external-scanner";
  description = "";
  trigger_detectors = "port_velocity" ∷ [];
  requires_external_source = true;
  min_risk = 5000;
  blast_radius = low;
  action_type = "block_ip";
  version = 1;
}

abbrev scan : IncidentContext
scan = record {
  incident_id = 1;
  entity_id = 2;
  entity_identifier = "8.8.8.8";
  risk_score = 4000;
  detectors = "port_velocity" ∷ [];
  techniques = [];
}

evaluate_response-eq-specs_of_example :
    evaluate_response plain_formats (record scan { risk_score = 6000 }) (block_scanner ∷ []) 1000
    ≡ specs_of plain_formats
        (record scan { risk_score = 6000 })
        1000
        (keep (matches plain_formats (record scan { risk_score = 6000 }) 1000) (block_scanner ∷ []))
evaluate_response-eq-specs_of_example =
    evaluate_response-eq-specs_of plain_formats (record scan { risk_score = 6000 })
      (block_scanner ∷ []) 1000

is_external-iff-IsInternal_example :
    (is_external (some (v4 0x0a000001)) ≡ false)
    ↔ (IsInternal (v4 0x0a000001) × (IsLoopback6 (v4 0x0a000001) → ⊥))
is_external-iff-IsInternal_example = is_external-iff-IsInternal (v4 0x0a000001)
