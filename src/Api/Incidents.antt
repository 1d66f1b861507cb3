-- ===== src/Api/Incidents.antt =====
-- get_incident and analyze_incident of src/app/api/incidents.py, over the tables of the correlation
-- worker. A row of a query is the tuple of its columns; unpacking a tuple into the wrong number of
-- names raises ValueError, which is answered with 500. The column version is left out.
use sentraxis.Prelude.{
  ℕ, max, min, Bool, true, false, Option, none, some, List, [], ◌∷◌, ◌++◌, String, Text, ◌==◌,
  find_first, keep, length, map, if◌then◌else◌,
}
use sentraxis.Correlate.Draft.{IncidentDraft, insert_name, insert_number}
use sentraxis.Correlate.Facts.{CandidateRow, AnalysisFact, Projection, analysis_facts_from_rows}
use sentraxis.Correlate.Analysis.{Analysis}
use sentraxis.Correlate.Agent.{Analyzed}
use sentraxis.Correlate.Worker.{IncidentRow, IncidentDetectionRow, Db, enrich, call_row}
use sentraxis.Llm.Providers.{Settings}
use sentraxis.Api.Auth.{
  UserRow, Libraries, HttpError, Checked, granted, refused, get_current_user, require_roles, ◌>>=◌,
}

unfoldable pub get_row : ℕ → List IncidentRow → Option IncidentRow
get_row id rows = find_first (λ i. i.id == id) rows

unfoldable pub http_error : ℕ → String → HttpError
http_error status detail = record { status = status; detail = detail }

-- The joins on `incident_detections`, in the order of the detections.
unfoldable pub is_linked : ℕ → List IncidentDetectionRow → CandidateRow → Bool
is_linked incident_id [] r = false
is_linked incident_id (l ∷ ls) r =
    let rest = is_linked incident_id ls r in
    if l.incident_id == incident_id then (if l.detection_id == r.id then true else rest) else rest

unfoldable pub linked_rows : ℕ → Db → List CandidateRow
linked_rows incident_id db = keep (is_linked incident_id db.links) db.detections

pub record DetectionRefOut : Type 0 where
  pub detection_id : ℕ
  pub detector : String
  pub score : ℕ
  pub severity : ℕ
  pub event_ts : ℕ

pub record IncidentDetailOut : Type 0 where
  pub incident : IncidentRow
  pub detections : List DetectionRefOut

unfoldable pub detection_ref : CandidateRow → DetectionRefOut
detection_ref d = record {
  detection_id = d.id;
  detector = d.detector;
  score = d.score;
  severity = d.severity;
  event_ts = d.event_ts;
}

-- A column of a row: `DetectionRow`, `EventRow.ts` and `EntityRow.identifier`.
pub data Column : Type 0 where
  detection : CandidateRow → Column
  event_ts : ℕ → Column
  identifier : Text → Column

unfoldable pub columns : CandidateRow → List Column
columns r = detection r ∷ event_ts r.event_ts ∷ identifier r.identifier ∷ []

-- `for d, ts in ...`
unfoldable pub unpack_pair : List Column → Option (Column × Column)
unpack_pair (c ∷ d ∷ []) = some (c, d)
unpack_pair _ = none

-- The dictionary that the comprehension makes of `d` and `ts`, where these have the two attributes.
unfoldable pub facts_row : Option (Column × Column) → Option CandidateRow
facts_row (some (detection d, event_ts ts)) = some (record d { event_ts = ts })
facts_row _ = none

unfoldable pub facts_rows : List (List Column) → Option (List CandidateRow)
facts_rows [] = some []
facts_rows (row ∷ rows) = elim (facts_row (unpack_pair row)) [
  | none ↦ none
  | some r ↦ elim (facts_rows rows) [ none ↦ none | some rs ↦ some (r ∷ rs) ]
]

-- `not settings.groq_api_key.get_secret_value() and ...`
unfoldable pub has_no_key : Settings → Bool
has_no_key settings = elim settings.groq_api_key [
  | ◌∷◌ c cs ↦ false
  | [] ↦ elim settings.openrouter_api_key [
    | ◌∷◌ c cs ↦ false
    | [] ↦ elim settings.mistral_api_key [ ◌∷◌ c cs ↦ false | [] ↦ true ]
  ]
]

unfoldable pub names_of : List CandidateRow → List String
names_of [] = []
names_of (r ∷ rs) = insert_name r.detector (names_of rs)

unfoldable pub ids_of : List CandidateRow → List ℕ
ids_of [] = []
ids_of (r ∷ rs) = insert_number r.id (ids_of rs)

unfoldable pub earliest : ℕ → List CandidateRow → ℕ
earliest m [] = m
earliest m (r ∷ rs) = min r.event_ts (earliest m rs)

unfoldable pub latest : ℕ → List CandidateRow → ℕ
latest m [] = m
latest m (r ∷ rs) = max r.event_ts (latest m rs)

unfoldable pub draft_for : IncidentRow → CandidateRow → List CandidateRow → IncidentDraft
draft_for row r rs = record {
  entity_id = row.entity_id;
  title = [];
  narrative = [];
  risk_score = row.risk_score;
  first_seen_at = earliest r.event_ts rs;
  last_seen_at = latest r.event_ts rs;
  detection_count = length (r ∷ rs);
  detection_ids = ids_of (r ∷ rs);
  distinct_detectors = names_of (r ∷ rs);
}

unfoldable pub put_incident : IncidentRow → List IncidentRow → List IncidentRow
put_incident i [] = []
put_incident i (j ∷ js) =
    let rest = put_incident i js in if j.id == i.id then i ∷ rest else j ∷ rest

-- Without the bound on the narrative that the worker has.
unfoldable pub enrich_row : Analysis → IncidentRow → IncidentRow
enrich_row analysis row = record (enrich analysis row) { narrative = analysis.narrative }

module _ (lib : Libraries) (users : List UserRow) where
  unfoldable pub get_incident : ℕ → Text → ℕ → Db → Checked IncidentDetailOut
  get_incident now authorization incident_id db = do
    user ← get_current_user lib now users authorization
    (elim (get_row incident_id db.incidents) [
      | none ↦ refused (http_error 404 "Incident not found")
      | some row ↦
          granted
            (record { incident = row; detections = map detection_ref (linked_rows incident_id db) })
    ])

  module _ (isoformat : ℕ → Text) (dumps : Projection → Text) (G : Type 0)
      (analyze : Text → IncidentDraft → List AnalysisFact → List ℕ → G → Option Analyzed × G) where
    -- From `analysis, meta, repaired = ...` on: without an analysis the session is closed and the
    -- added call row is rolled back.
    unfoldable pub store_analysis : IncidentRow → Option Analyzed → Db → Checked IncidentRow × Db
    store_analysis row none db =
        (refused (http_error 503 "LLM analysis unavailable; incident kept in rules mode"), db)
    store_analysis row (some answer) db = elim answer.analysis [
      | none ↦
          (refused (http_error 503 "LLM analysis unavailable; incident kept in rules mode"), db)
      | some analysis ↦
          let enriched = enrich_row analysis row in
          (
            granted enriched,
            record db {
              incidents = put_incident enriched db.incidents;
              llm_calls = db.llm_calls ++ (call_row (some answer) ∷ []);
            },
          )
    ]

    -- From `facts_rows = ...` on.
    unfoldable pub analyze_rows :
        IncidentRow → Text → Option (List CandidateRow) → Db → G → Checked IncidentRow × (Db × G)
    analyze_rows row entity none db g = (refused (http_error 500 "ValueError"), (db, g))
    analyze_rows row entity (some []) db g = (refused (http_error 500 "ValueError"), (db, g))
    analyze_rows row entity (some (r ∷ rs)) db g =
        let draft = draft_for row r rs in
        let (answer, after) =
          analyze entity draft (analysis_facts_from_rows isoformat dumps (r ∷ rs))
            draft.detection_ids g in
        let (reply, stored) = store_analysis row answer db in (reply, (stored, after))

    unfoldable pub analyze_linked :
        IncidentRow → List CandidateRow → Db → G → Checked IncidentRow × (Db × G)
    analyze_linked row [] db g =
        (refused (http_error 409 "Incident has no evidence to analyze"), (db, g))
    analyze_linked row (r ∷ rs) db g =
        analyze_rows row r.identifier (facts_rows (map columns (r ∷ rs))) db g

    unfoldable pub analyze_found :
        Settings → ℕ → Option IncidentRow → Db → G → Checked IncidentRow × (Db × G)
    analyze_found settings incident_id none db g =
        (refused (http_error 404 "Incident not found"), (db, g))
    analyze_found settings incident_id (some row) db g =
        if has_no_key settings
        then (refused (http_error 503 "LLM providers not configured"), (db, g))
        else analyze_linked row (linked_rows incident_id db) db g

    unfoldable pub analyze_as :
        Settings → ℕ → Checked UserRow → Db → G → Checked IncidentRow × (Db × G)
    analyze_as settings incident_id (refused e) db g = (refused e, (db, g))
    analyze_as settings incident_id (granted user) db g =
        analyze_found settings incident_id (get_row incident_id db.incidents) db g

    unfoldable pub analyze_incident :
        Settings → ℕ → Text → ℕ → Db → G → Checked IncidentRow × (Db × G)
    analyze_incident settings now authorization incident_id db g =
        analyze_as settings incident_id
          (get_current_user lib now users authorization
            >>= require_roles ("admin" ∷ "analyst" ∷ []))
          db g
