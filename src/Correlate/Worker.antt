-- ===== src/Correlate/Worker.antt =====
-- CorrelationWorker of src/app/workers/correlator.py. The tables hold what the worker reads and
-- writes: `detections` stands for the candidate query, in the order of the ids. Stamps are
-- microseconds, risks ten-thousandths. A tick is one transaction: where it raises, the tables stay.
use sentraxis.Prelude.{
  ℕ, suc, ◌+◌, ◌*◌, max, Bool, true, false, ◌&&◌, ◌||◌, Option, none, some, List, [], ◌∷◌, ◌++◌,
  String, Text, codes, ltb, leb, ◌==◌, keep, take, length, find_first, map, if◌then◌else◌,
}
use sentraxis.Detect.Base.{second}
use sentraxis.Correlate.Rules.{DetectionFact, cluster_by_entity_and_time}
use sentraxis.Correlate.Draft.{IncidentDraft, build_incident_draft}
use sentraxis.Correlate.Facts.{CandidateRow, AnalysisFact, analysis_facts_from_rows, Projection}
use sentraxis.Correlate.Analysis.{TechniqueClaim, Analysis}
use sentraxis.Correlate.Agent.{Meta, Analyzed, join, purpose}

pub record IncidentRow : Type 0 where
  pub id : ℕ
  pub status : String
  pub title : Text
  pub narrative : Text
  pub risk_score : ℕ
  pub techniques : List TechniqueClaim
  pub correlation_mode : String
  pub entity_id : ℕ
  pub detection_count : ℕ
  pub first_seen_at : ℕ
  pub last_seen_at : ℕ

pub record IncidentDetectionRow : Type 0 where
  pub incident_id : ℕ
  pub detection_id : ℕ

pub record LlmCallRow : Type 0 where
  pub purpose' : Text
  pub meta : Meta

-- `next_id` is the id that the next flush gives to an incident.
pub record Db : Type 0 where
  pub detections : List CandidateRow
  pub incidents : List IncidentRow
  pub links : List IncidentDetectionRow
  pub llm_calls : List LlmCallRow
  pub cursor : Option ℕ
  pub next_id : ℕ

pub data TickResult : Type 0 where
  summary : (detections incidents : ℕ) → TickResult
  raised : TickResult

unfoldable pub get_cursor : Db → ℕ
get_cursor db = elim db.cursor [ none ↦ 0 | some n ↦ n ]

unfoldable pub set_cursor : ℕ → Db → Db
set_cursor value db = record db { cursor = some value }

-- `EventRow.ts <= now - window`, unless forced
unfoldable pub is_due : (window_seconds : ℕ) (force : Bool) (now : ℕ) → CandidateRow → Bool
is_due window_seconds force now r = force || leb (r.event_ts + window_seconds * second) now

unfoldable pub fetch :
    (window_seconds batch_size : ℕ) (force : Bool) (now : ℕ) → Db → List CandidateRow
fetch window_seconds batch_size force now db =
    take batch_size
      (keep (λ r. ltb (get_cursor db) r.id && is_due window_seconds force now r) db.detections)

unfoldable pub fact_of : CandidateRow → DetectionFact
fact_of r = record {
  detection_id = r.id;
  entity_id = r.entity_id;
  detector = r.detector;
  detector_version = r.detector_version;
  score = r.score;
  severity = r.severity;
  event_ts = r.event_ts;
}

-- `rows_by_id[did]`, for one id and for a list of them; `none` is a KeyError.
unfoldable pub find_row : List CandidateRow → ℕ → Option CandidateRow
find_row rows did = find_first (λ r. r.id == did) rows

unfoldable pub find_rows : List CandidateRow → List ℕ → Option (List CandidateRow)
find_rows rows [] = some []
find_rows rows (did ∷ dids) = elim (find_row rows did) [
  | none ↦ none
  | some r ↦ elim (find_rows rows dids) [ none ↦ none | some rs ↦ some (r ∷ rs) ]
]

unfoldable pub new_incident : ℕ → IncidentDraft → Text → IncidentRow
new_incident id draft identifier = record {
  id = id;
  status = "open";
  title = take 200 (
      codes "Behavioral anomalies on "
      ++ identifier
      ++ codes ": "
      ++ join (codes ", ") (map codes draft.distinct_detectors));
  narrative = draft.narrative;
  risk_score = draft.risk_score;
  techniques = [];
  correlation_mode = "rules";
  entity_id = draft.entity_id;
  detection_count = draft.detection_count;
  first_seen_at = draft.first_seen_at;
  last_seen_at = draft.last_seen_at;
}

unfoldable pub links_of : ℕ → List ℕ → List IncidentDetectionRow
links_of incident_id dids =
    map (λ did. record { incident_id = incident_id; detection_id = did }) dids

-- The defaults of `(meta or {}).get(...)`.
unfoldable pub no_meta : Meta
no_meta = record {
  provider = codes "-";
  model = codes "-";
  prompt_tokens = 0;
  completion_tokens = 0;
  latency_ms = 0;
  outcome = "unavailable";
  cache_hit = false;
  error_detail = none;
}

unfoldable pub call_row : Option Analyzed → LlmCallRow
call_row none = record { purpose' = purpose; meta = no_meta }
call_row (some answer) = record { purpose' = purpose; meta = answer.meta }

unfoldable pub enrich : Analysis → IncidentRow → IncidentRow
enrich analysis incident = record incident {
  title = take 200 analysis.title;
  narrative = take 4000 analysis.narrative;
  risk_score = max incident.risk_score analysis.risk_score;
  techniques = analysis.techniques;
  correlation_mode = "llm";
}

-- `analysis, meta, repaired = result if result else (None, None, False)`, and what follows.
unfoldable pub apply_answer : Option Analyzed → IncidentRow → IncidentRow
apply_answer none incident = incident
apply_answer (some answer) incident = elim answer.analysis [
  | none ↦ incident
  | some analysis ↦ enrich analysis incident
]

-- The incident is one object from its first flush to the commit, which writes its last state.
unfoldable pub save_incident : IncidentRow → List ℕ → List LlmCallRow → Db → Db
save_incident incident dids calls db = record db {
  incidents = db.incidents ++ (incident ∷ []);
  links = db.links ++ links_of incident.id dids;
  llm_calls = db.llm_calls ++ calls;
  next_id = suc db.next_id;
}

-- `G` is the state of the agent, which may be absent.
module _ (title_of : ℕ → List String → Text) (narrative_of : ℕ → ℕ → ℕ → ℕ → Text)
    (isoformat : ℕ → Text) (dumps : Projection → Text) (G : Type 0) where
  abbrev pub AgentLike : Type 0
  AgentLike = Text → IncidentDraft → List AnalysisFact → List ℕ → G → Option Analyzed × G

  -- The flag tells that nothing raised.
  unfoldable pub with_agent :
      Option AgentLike
      → List CandidateRow
      → IncidentDraft
      → Text
      → IncidentRow
      → Db
      → G
      → Bool × (Db × G)
  with_agent none rows draft identifier incident db g =
      (true, (save_incident incident draft.detection_ids [] db, g))
  with_agent (some agent) rows draft identifier incident db g =
      elim (find_rows rows draft.detection_ids) [
        | none ↦ (false, (db, g))
        | some fact_rows ↦
            let (answer, after) =
              agent identifier draft (analysis_facts_from_rows isoformat dumps fact_rows)
                draft.detection_ids g in
            (
              true,
              (
                save_incident (apply_answer answer incident) draft.detection_ids
                    (call_row answer ∷ []) db,
                after,
              ),
            )
      ]

  unfoldable pub create_incident :
      Option AgentLike → List CandidateRow → IncidentDraft → Text → Db → G → Bool × (Db × G)
  create_incident agent rows draft identifier db g =
      with_agent agent rows draft identifier (new_incident db.next_id draft identifier) db g

  -- One round of the loop: `max` of no fact, `cluster[0]` and a missing row raise.
  unfoldable pub process_cluster :
      Option AgentLike → List CandidateRow → List DetectionFact → Db → G → Bool × (Db × G)
  process_cluster agent rows [] db g = (false, (db, g))
  process_cluster agent rows (f ∷ fs) db g =
      elim (build_incident_draft title_of narrative_of (f ∷ fs)) [
        | none ↦ (false, (db, g))
        | some draft ↦ elim (find_row rows f.detection_id) [
          | none ↦ (false, (db, g))
          | some r ↦ create_incident agent rows draft r.identifier db g
        ]
      ]

  unfoldable pub process_clusters :
      Option AgentLike → List CandidateRow → List (List DetectionFact) → Db → G → Bool × (Db × G)
  process_clusters agent rows [] db g = (true, (db, g))
  process_clusters agent rows (c ∷ cs) db g =
      let (ok, (db', g')) = process_cluster agent rows c db g in
      elim ok [ true ↦ process_clusters agent rows cs db' g' | false ↦ (false, (db', g')) ]

  unfoldable pub max_id : List CandidateRow → ℕ
  max_id [] = 0
  max_id (r ∷ rs) = max r.id (max_id rs)

  -- The rows that were read, and what is done with them.
  unfoldable pub process_rows :
      Option AgentLike → (window_seconds : ℕ) → List CandidateRow → Db → G → TickResult × (Db × G)
  process_rows agent window_seconds [] db g = (summary 0 0, (db, g))
  process_rows agent window_seconds (r ∷ rs) db g =
      let rows = r ∷ rs in
      let clusters = cluster_by_entity_and_time (map fact_of rows) window_seconds in
      let (ok, (db', g')) = process_clusters agent rows clusters db g in
      if ok
      then (summary (length rows) (length clusters), (set_cursor (max_id rows) db', g'))
      else (raised, (db, g'))

  unfoldable pub tick :
      Option AgentLike
      → (window_seconds batch_size : ℕ) (force : Bool) (now : ℕ) → Db
      → G
      → TickResult × (Db × G)
  tick agent window_seconds batch_size force now db g =
      process_rows agent window_seconds (fetch window_seconds batch_size force now db) db g

  -- The loop of `main`, with the times of its ticks.
  unfoldable pub run : Option AgentLike → (window_seconds batch_size : ℕ) → List ℕ → Db → G → Db × G
  run agent window_seconds batch_size [] db g = (db, g)
  run agent window_seconds batch_size (now ∷ times) db g =
      let (result, (db', g')) = tick agent window_seconds batch_size false now db g in
      run agent window_seconds batch_size times db' g'
