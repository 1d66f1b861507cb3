-- ===== src/Api/Unpacked.antt =====
-- analyze_incident of src/app/api/incidents.py unpacks rows of three columns into two names.
use sentraxis.Prelude.{ℕ, ◌≡◌, refl, inl, inr, Option, none, some, List, [], ◌∷◌, Text, Bool-cases}
use sentraxis.Correlate.Draft.{IncidentDraft}
use sentraxis.Correlate.Facts.{CandidateRow, AnalysisFact, Projection}
use sentraxis.Correlate.Agent.{Analyzed}
use sentraxis.Correlate.Worker.{IncidentRow, Db}
use sentraxis.Llm.Providers.{Settings}
use sentraxis.Api.Auth.{
  UserRow, Libraries, HttpError, Checked, granted, refused, get_current_user, require_roles, ◌>>=◌,
}
use sentraxis.Api.Incidents.{
  get_row, http_error, linked_rows, columns, unpack_pair, facts_row, facts_rows, has_no_key,
  analyze_rows, analyze_linked, analyze_found, analyze_as, analyze_incident,
}

module _ (lib : Libraries) (users : List UserRow) (isoformat : ℕ → Text) (dumps : Projection → Text)
    (G : Type 0)
    (analyze : Text → IncidentDraft → List AnalysisFact → List ℕ → G → Option Analyzed × G) where
  -- The request is refused, and neither the tables nor the agent have changed.
  abbrev pub Refused : Db → G → Checked IncidentRow × (Db × G) → Type 0
  Refused db g ran = (e : HttpError) × (ran ≡ (refused e, (db, g)))

  analyze_linked-Refused :
      (row : IncidentRow) (rows : List CandidateRow) (db : Db) (g : G)
      → Refused db g (analyze_linked lib users isoformat dumps G analyze row rows db g)
  unfolding analyze_linked analyze_rows facts_rows facts_row unpack_pair columns
  analyze_linked-Refused row [] db g = (_, refl)
  analyze_linked-Refused row (r ∷ rs) db g = (_, refl)

  analyze_found-Refused :
      (settings : Settings) (incident_id : ℕ) (row : Option IncidentRow) (db : Db) (g : G)
      → Refused db g
          (analyze_found lib users isoformat dumps G analyze settings incident_id row db g)
  unfolding analyze_found
  analyze_found-Refused settings incident_id none db g = (_, refl)
  analyze_found-Refused settings incident_id (some row) db g =
      elim (Bool-cases (has_no_key settings)) [
        | inl e ↦ (http_error 503 "LLM providers not configured", rw (e, analyze_found) refl)
        | inr e ↦
            let (error, same) = analyze_linked-Refused row (linked_rows incident_id db) db g in
            (error, rw (e, analyze_found) same)
      ]

  analyze_as-Refused :
      (settings : Settings) (incident_id : ℕ) (user : Checked UserRow) (db : Db) (g : G)
      → Refused db g (analyze_as lib users isoformat dumps G analyze settings incident_id user db g)
  unfolding analyze_as
  analyze_as-Refused settings incident_id (refused e) db g = (e, refl)
  analyze_as-Refused settings incident_id (granted user) db g =
      analyze_found-Refused settings incident_id (get_row incident_id db.incidents) db g

  -- A request to analyze an incident never yields an analysis: whatever the user, the settings, the
  -- tables and the agent are, it is refused, with the tables as they were and the agent not asked.
  pub analyze_incident-Refused :
      (settings : Settings) (now : ℕ) (authorization : Text) (incident_id : ℕ) (db : Db) (g : G)
      → Refused db g (
          analyze_incident lib users isoformat dumps G analyze settings now authorization
            incident_id db g)
  unfolding analyze_incident
  analyze_incident-Refused settings now authorization incident_id db g =
      analyze_as-Refused settings incident_id
        (get_current_user lib now users authorization >>= require_roles ("admin" ∷ "analyst" ∷ []))
        db g
