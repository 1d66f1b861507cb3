-- ===== src/Correlate/Tests.antt =====
-- Detections of two entities, and the theorems on src/app/correlation and its worker at them.
use sentraxis.Prelude.{
  pos, ◌≤◌, ◌<◌, ◌≡◌, none, false, List, codes, text_eq, ltb, ◌&&◌, ◌≢◌, some, length, arith, ℕ,
  refl, inl, inr, ◌+◌, ◌-◌, ◌*◌, [], ◌∷◌, min, All,
}
use sentraxis.Detect.Base.{second}
use sentraxis.Correlate.Rules.{DetectionFact, cluster_by_entity_and_time}
use sentraxis.Correlate.Draft.{draft_of, IncidentDraft, build_incident_draft}
use sentraxis.Correlate.Covers.{In, InSome}
use mathlib.Core.List.{Perm}
use sentraxis.Correlate.Names.{AreDetectors}
use sentraxis.Correlate.Drafted.{IsTop, Encloses, build_incident_draft_lem}
use sentraxis.Correlate.Apart.{IsChain, AreApart, cluster_by_entity_and_time-AreApart}
use sentraxis.Llm.Example.{settings, world, start, chain}
use sentraxis.Correlate.Attack.{mini_allowlist, is_known_technique, technique_name}
use sentraxis.Correlate.Facts.{CandidateRow}
use sentraxis.Correlate.Analysis.{
  RawTechnique, RawAnalysis, valid, invalid, unknown_evidence, validate_analysis_payload,
  model_validate, both, and_then, check_length, check_unit, check_techniques, check_each,
  check_technique, check_id, matches_id, is_suffix, check_cited, normalize_claim, display_name,
  check_analysis, check_evidence, is_allowed, check_risk, max_confidence,
}
use sentraxis.Correlate.Agent.{Tools, analyze}
use sentraxis.Correlate.Trusted.{IsJudged, analyze_lem}
use sentraxis.Correlate.Worker.{Db, get_cursor, is_due, fetch, fact_of, tick, run}
use sentraxis.Correlate.Linked.{Linked, Unlinked}
use sentraxis.Correlate.Pending.{behind}
use sentraxis.Correlate.Ticked.{Accounted, tick-Linked}
use sentraxis.Correlate.Drain.{AllDue}
use sentraxis.Correlate.Run.{run-Linked, run-skips}

abbrev fact : ℕ → ℕ → ℕ → DetectionFact
fact id entity at' = record {
  detection_id = id;
  entity_id = entity;
  detector = "port_velocity";
  detector_version = 1;
  score = 5000;
  severity = 2;
  event_ts = at' * second;
}

abbrev facts : List DetectionFact
facts = fact 1 7 500 ∷ fact 2 8 10 ∷ fact 3 7 460 ∷ []

cluster_by_entity_and_time-AreApart_example :
    All (IsChain 60) (cluster_by_entity_and_time facts 60)
    × AreApart 60 (cluster_by_entity_and_time facts 60)
    × All (λ x. InSome x (cluster_by_entity_and_time facts 60)) facts
    × All (All (λ x. In x facts)) (cluster_by_entity_and_time facts 60)
cluster_by_entity_and_time-AreApart_example = cluster_by_entity_and_time-AreApart facts 60

fact≢[] : fact 1 7 500 ∷ fact 3 7 460 ∷ [] ≢ []
fact≢[] e = cc

build_incident_draft_lem_example :
    (d : IncidentDraft) × (top : ℕ) × (build_incident_draft
        (λ i names. [])
        (λ a b c e. [])
        (fact 1 7 500 ∷ fact 3 7 460 ∷ [])
      ≡ some d)
    × AreDetectors d.distinct_detectors (fact 1 7 500 ∷ fact 3 7 460 ∷ [])
    × IsTop top (fact 1 7 500 ∷ fact 3 7 460 ∷ [])
    × (d.risk_score ≡ min 10000 (top + 1500 * (length d.distinct_detectors - 1)))
    × All (Encloses d) (fact 1 7 500 ∷ fact 3 7 460 ∷ [])
    × Perm d.detection_ids (1 ∷ 3 ∷ [])
    × (d.detection_count ≡ 2)
build_incident_draft_lem_example =
    build_incident_draft_lem (λ i names. []) (λ a b c e. []) (fact 1 7 500 ∷ fact 3 7 460 ∷ [])
      fact≢[] (omega arith, (omega arith, tt))

abbrev claim : RawTechnique
claim = record {
  id = codes "T1046";
  name = codes "scan";
  confidence = pos 8000;
  evidence_detection_ids = pos 4 ∷ [];
}

abbrev raw : RawAnalysis
raw = record {
  title = codes "Port scan";
  narrative = codes "A host asked many ports.";
  risk_score = pos 7000;
  confidence_overall = pos 9000;
  techniques = claim ∷ [];
}

abbrev tools : Tools ℕ
tools = record {
  is_digit = λ c. ltb 47 c && ltb c 58;
  read_fields = λ payload. some raw;
  isoformat = λ t. t ∷ [];
  dumps = λ p. [];
  describe = λ issue. [];
  exception_text = λ e. [];
}

abbrev a_draft : IncidentDraft
a_draft = draft_of (λ i names. []) (λ a b c e. []) (fact 4 7 500) []

analyze_lem_example :
    let ran = analyze ℕ world tools mini_allowlist settings chain [] [] a_draft [] (4 ∷ []) start in
    (0 ≤ ran.1.sent)
    × (ran.1.sent ≤ 12)
    × IsJudged ℕ world tools mini_allowlist settings chain (4 ∷ []) ran.0
analyze_lem_example =
    analyze_lem ℕ world tools mini_allowlist settings chain [] [] a_draft [] (4 ∷ []) start

-- The reply above is accepted.
accepted :
    validate_analysis_payload tools.is_digit mini_allowlist (4 ∷ []) tools.read_fields 7
    ≡ valid (record {
      title = codes "Port scan";
      narrative = codes "A host asked many ports.";
      risk_score = 7000;
      confidence_overall = 9000;
      techniques =
          record {
            id = codes "T1046";
            name = codes "Network Service Discovery";
            confidence = 8000;
            evidence_detection_ids = pos 4 ∷ [];
          }
          ∷ [];
    })
unfolding validate_analysis_payload model_validate both and_then check_length check_unit
    check_techniques check_each check_technique check_id matches_id is_suffix check_cited
    normalize_claim display_name check_analysis check_evidence is_allowed check_risk max_confidence
    mini_allowlist is_known_technique technique_name text_eq
accepted = refl

-- Evidence that is no detection of the incident is refused.
refused :
    validate_analysis_payload tools.is_digit mini_allowlist (5 ∷ []) tools.read_fields 7
    ≡ invalid (unknown_evidence (pos 4 ∷ []) ∷ [])
unfolding validate_analysis_payload model_validate both and_then check_length check_unit
    check_techniques check_each check_technique check_id matches_id is_suffix check_cited
    normalize_claim display_name check_analysis check_evidence is_allowed check_risk max_confidence
    mini_allowlist is_known_technique technique_name text_eq
refused = refl

abbrev row : ℕ → ℕ → ℕ → CandidateRow
row id entity at' = record {
  id = id;
  entity_id = entity;
  detector = "port_velocity";
  detector_version = 1;
  score = 5000;
  severity = 2;
  observed = none;
  metric = none;
  event_ts = at' * second;
  identifier = codes "host";
}

abbrev tables : List CandidateRow → Db
tables rows = record {
  detections = rows;
  incidents = [];
  links = [];
  llm_calls = [];
  cursor = none;
  next_id = 1;
}

-- Two detections are due at 1000 seconds, and the one between them is not.
abbrev mixed : List CandidateRow
mixed = row 1 7 100 ∷ row 2 7 990 ∷ row 3 8 200 ∷ []

tick-Linked_example :
    Accounted
      (λ i names. [])
      (λ a b c e. [])
      (λ t. [])
      (λ p. [])
      ℕ
      none
      60
      (tables mixed)
      0
      (fetch 60 10 false (1000 * second) (tables mixed))
      (tick
        (λ i names. [])
        (λ a b c e. [])
        (λ t. [])
        (λ p. [])
        ℕ
        none
        60
        10
        false
        (1000 * second)
        (tables mixed)
        0)
tick-Linked_example =
    tick-Linked (λ i names. []) (λ a b c e. []) (λ t. []) (λ p. []) ℕ none 60 10 false
      (1000 * second) (tables mixed) 0 (omega arith, (omega arith, (omega arith, tt)))

abbrev old : List CandidateRow
old = row 1 7 100 ∷ row 3 8 200 ∷ []

all_due : All (AllDue 60 old) (1000 * second ∷ 1002 * second ∷ [])
unfolding is_due
all_due = ((refl, (refl, tt)), ((refl, (refl, tt)), tt))

two : length (behind (get_cursor (tables old)) old) ≤ 2
unfolding get_cursor
two = omega arith

later : get_cursor (tables old) < 3
unfolding get_cursor
later = omega arith

run-Linked_example :
    Linked
      (run
        (λ i names. [])
        (λ a b c e. [])
        (λ t. [])
        (λ p. [])
        ℕ
        none
        60
        1
        (1000 * second ∷ 1002 * second ∷ [])
        (tables old)
        0).0
      (fact_of (row 3 8 200))
run-Linked_example =
    run-Linked (λ i names. []) (λ a b c e. []) (λ t. []) (λ p. []) ℕ none 60 0
      (1000 * second ∷ 1002 * second ∷ []) (tables old) 0 (row 3 8 200)
      (omega arith, (omega arith, tt)) ((omega arith, tt), (tt, tt)) all_due two (inr (inl refl))
      later

held : is_due 60 false (1000 * second) (row 2 7 990) ≡ false
unfolding is_due
held = refl

read : In (row 3 8 200) (fetch 60 10 false (1000 * second) (tables mixed))
unfolding fetch get_cursor is_due
read = inr (inl refl)

run-skips_example :
    let ran =
      tick
        (λ i names. [])
        (λ a b c e. [])
        (λ t. [])
        (λ p. [])
        ℕ
        none
        60
        10
        false
        (1000 * second)
        (tables mixed)
        0 in
    Unlinked
      (run
        (λ i names. [])
        (λ a b c e. [])
        (λ t. [])
        (λ p. [])
        ℕ
        none
        60
        10
        (2000 * second ∷ 3000 * second ∷ [])
        ran.1.0
        ran.1.1).0
      2
run-skips_example =
    run-skips (λ i names. []) (λ a b c e. []) (λ t. []) (λ p. []) ℕ none 60 10 (1000 * second)
      (2000 * second ∷ 3000 * second ∷ []) (tables mixed) 0 (row 2 7 990) (row 3 8 200)
      (omega arith, (omega arith, (omega arith, tt)))
      ((omega arith, (omega arith, tt)), ((omega arith, tt), (tt, tt))) (inr (inl refl)) held read
      (omega arith) tt
