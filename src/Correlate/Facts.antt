-- ===== src/Correlate/Facts.antt =====
-- The rows of the candidate query of src/app/workers/correlator.py, and their projection for the
-- prompt in src/app/correlation/agent.py. Scores are ten-thousandths, so that rounding to four
-- places does nothing; an observed value has the unit of its detector.
use sentraxis.Prelude.{ℕ, Option, List, [], ◌∷◌, String, Text, codes, if◌then◌else◌}
use sentraxis.Ingest.Repository.{text_ltb}
use sentraxis.Correlate.Draft.{IncidentDraft}

pub record CandidateRow : Type 0 where
  pub id : ℕ
  pub entity_id : ℕ
  pub detector : String
  pub detector_version : ℕ
  pub score : ℕ
  pub severity : ℕ
  pub observed : Option ℕ
  pub metric : Option Text
  pub event_ts : ℕ
  pub identifier : Text

pub record AnalysisFact : Type 0 where
  pub detection_id : ℕ
  pub detector : Text
  pub score : ℕ
  pub severity : ℕ
  pub event_ts : Text
  pub observed : Option ℕ
  pub metric : Option Text

-- The object that `build_user_prompt` dumps.
pub record Projection : Type 0 where
  pub entity : Text
  pub first_seen : Text
  pub last_seen : Text
  pub detections : List AnalysisFact

unfoldable pub insert_analysis_fact : AnalysisFact → List AnalysisFact → List AnalysisFact
insert_analysis_fact f [] = f ∷ []
insert_analysis_fact f (g ∷ gs) =
    let rest = insert_analysis_fact f gs in
    if text_ltb g.event_ts f.event_ts then g ∷ rest else f ∷ g ∷ gs

-- `datetime.isoformat` and `json.dumps`
module _ (isoformat : ℕ → Text) (dumps : Projection → Text) where
  unfoldable pub analysis_fact_of : CandidateRow → AnalysisFact
  analysis_fact_of r = record {
    detection_id = r.id;
    detector = codes r.detector;
    score = r.score;
    severity = r.severity;
    event_ts = isoformat r.event_ts;
    observed = r.observed;
    metric = r.metric;
  }

  unfoldable pub analysis_facts_from_rows : List CandidateRow → List AnalysisFact
  analysis_facts_from_rows [] = []
  analysis_facts_from_rows (r ∷ rs) =
      insert_analysis_fact (analysis_fact_of r) (analysis_facts_from_rows rs)

  unfoldable pub build_user_prompt : Text → IncidentDraft → List AnalysisFact → Text
  build_user_prompt entity_identifier draft facts = dumps (record {
    entity = entity_identifier;
    first_seen = isoformat draft.first_seen_at;
    last_seen = isoformat draft.last_seen_at;
    detections = facts;
  })
