-- ===== src/Orchestrator/Tick.antt =====
-- ResponseOrchestrator.tick of src/app/workers/orchestrator.py with its helpers.
use sentraxis.Prelude.{
  ℕ, ◌+◌, ◌-◌, ◌*◌, Bool, true, false, Option, none, some, List, [], ◌∷◌, String, Text, codes, take,
  keep, any, map, length, max, ltb, ◌==◌, ◌&&◌, str_eq, if◌then◌else◌,
}
use sentraxis.Audit.{Hashing, AuditLog, Fields, end, field, txt, append_entry}
use sentraxis.Policy.{Blast, low, high, other, PlaybookDef, ActionSpec, Formats, evaluate_response}
use sentraxis.Orchestrator.Store.{
  ActionState, pending_approval, queued, expired, PlaybookRow, IncidentRow, ActionRow, Db,
  get_entity, check_violation, Result, ok, raise, ◌>>=◌,
}
use sentraxis.Orchestrator.Transition.{
  state_eq, is_allowed, state_name, no_extra, moved_row, event_type, transition_payload,
}
use sentraxis.Orchestrator.Execute.{Effector, system_actor, execute}

pub record Settings : Type 0 where
  pub orch_batch_size : ℕ
  pub orch_approval_timeout_min : ℕ
  pub orch_min_risk : ℕ

-- What the orchestrator is built with, and the formatting that Python does for it.
pub record Env : Type 0 where
  pub hashing : Hashing
  pub formats : Formats
  -- `str` of an integer
  pub number_text : ℕ → Text
  pub settings : Settings
  pub effectors : List (String × Effector)

pub record Summary : Type 0 where
  pub incidents : ℕ
  pub actions_created : ℕ
  pub auto_executed : ℕ

unfoldable pub get_cursor : Db → ℕ
get_cursor db = elim db.cursor [ none ↦ 0 | some n ↦ n ]

unfoldable pub set_cursor : Db → ℕ → Db
set_cursor db value = record db { cursor = some value }

unfoldable pub load_playbooks : List PlaybookRow → List PlaybookDef
load_playbooks rows = map (λ r. r.definition) (keep (λ r. r.enabled) rows)

unfoldable pub get_technique_ids : List (Option String) → List String
get_technique_ids [] = []
get_technique_ids (none ∷ ts) = get_technique_ids ts
get_technique_ids (some t ∷ ts) = t ∷ get_technique_ids ts

-- `datetime.now(UTC) - timedelta(minutes=...)`; no stamp lies before it where it would be negative.
unfoldable pub expiry_cutoff : Settings → ℕ → ℕ
expiry_cutoff s now = now - s.orch_approval_timeout_min * 60_000_000

unfoldable pub is_stale : ℕ → ActionRow → Bool
is_stale cutoff a = state_eq a.state pending_approval && ltb a.created_at cutoff

-- The stale rows are transitioned one after the other, each with its entry in the ledger; a row
-- that may not move stays (the `except` of the loop).
unfoldable pub expire_rows : Hashing → ℕ → ℕ → List ActionRow → AuditLog → List ActionRow × AuditLog
expire_rows h now cutoff [] log = ([], log)
expire_rows h now cutoff (a ∷ as') log =
    let (rows, log') = expire_rows h now cutoff as' log in
    if is_stale cutoff a && is_allowed a.state expired
    then (
      moved_row now a expired no_extra ∷ rows,
      append_entry h now log' system_actor (event_type expired)
          (transition_payload a.state expired no_extra) (some "action") (some a.id),
    )
    else (a ∷ rows, log')

module _ (env : Env) where
  open env use {hashing as h, formats, number_text, settings, effectors}

  unfoldable pub expire_pending_approvals : ℕ → Db → Db
  unfolding expire_rows
  expire_pending_approvals now db =
      let (rows, log) = expire_rows h now (expiry_cutoff settings now) db.actions db.audit in
      record db { actions = rows; audit = log }

  -- `.where(IncidentRow.id > cursor).order_by(IncidentRow.id).limit(...)`; the table is in the order
  -- of the ids, and the join drops an incident without its entity.
  unfoldable pub fetch_incidents : Db → List IncidentRow
  fetch_incidents db = take settings.orch_batch_size (
      keep (λ i. ltb (get_cursor db) i.id && any (λ e. e.id == i.entity_id) db.entities)
        db.incidents)

  unfoldable pub detectors_of : Db → ℕ → List String
  detectors_of db incident_id =
      map (λ d. d.detector)
        (keep (λ d. any (λ l. l.detection_id == d.id && l.incident_id == incident_id) db.links)
          db.detections)

  unfoldable pub identifier_of : Db → ℕ → String
  identifier_of db entity_id = elim (get_entity entity_id db.entities) [
    | none ↦ ""
    | some e ↦ e.identifier
  ]

  unfoldable pub evaluate : Db → IncidentRow → List ActionSpec
  evaluate db incident =
      evaluate_response formats
        (record {
          incident_id = incident.id;
          entity_id = incident.entity_id;
          entity_identifier = identifier_of db incident.entity_id;
          risk_score = incident.risk_score;
          detectors = detectors_of db incident.id;
          techniques = get_technique_ids incident.techniques;
        })
        (load_playbooks db.playbooks) settings.orch_min_risk

  unfoldable pub first_state : Blast → ActionState
  first_state high = pending_approval
  first_state low = queued
  first_state (other t) = queued

  unfoldable pub find_playbook : PlaybookDef → List PlaybookRow → Option ℕ
  find_playbook pb [] = none
  find_playbook pb (r ∷ rs) =
      if str_eq r.definition.name pb.name && r.definition.version == pb.version
      then some r.id
      else find_playbook pb rs

  unfoldable pub blast_name : Blast → Text
  blast_name low = codes "low"
  blast_name high = codes "high"
  blast_name (other t) = codes t

  unfoldable pub new_action : ℕ → Db → IncidentRow → ActionSpec → ActionRow
  new_action now db incident spec = record {
    id = db.next_action_id;
    incident_id = incident.id;
    playbook_id = find_playbook spec.playbook db.playbooks;
    playbook_version = spec.playbook.version;
    action_type = spec.action_type;
    blast_radius = spec.blast_radius;
    entity_id = incident.entity_id;
    params = record {
      entity_identifier = elim (get_entity incident.entity_id db.entities) [
        | none ↦ number_text incident.entity_id
        | some e ↦ codes e.identifier
      ];
      reason = spec.reason;
      incident_title = take 200 incident.title;
    };
    state = first_state spec.blast_radius;
    attempt = 0;
    result = none;
    decided_by = none;
    decision_reason = none;
    idem_key = none;
    created_at = now;
    updated_at = now;
    decided_at = none;
  }

  unfoldable pub created_payload : ActionSpec → ActionState → Fields
  created_payload spec state = field "action_type" (txt (codes spec.action_type)) (
      field "blast_radius" (txt (blast_name spec.blast_radius))
        (field "state" (txt (codes (state_name state))) (field "reason" (txt spec.reason) end)))

  -- The constraint ck_actions_blast_radius of migrations/versions/0005_response_orchestration.py.
  unfoldable pub is_blast_radius : Blast → Bool
  is_blast_radius low = true
  is_blast_radius high = true
  is_blast_radius (other t) = false

  unfoldable pub add_action : ℕ → Db → IncidentRow → ActionSpec → ActionRow × Db
  add_action now db incident spec =
      let action = new_action now db incident spec in
      (
        action,
        record db {
          actions = action ∷ db.actions;
          next_action_id = db.next_action_id + 1;
          audit =
              append_entry h now db.audit system_actor (codes "action_created")
                (created_payload spec action.state) (some "action") (some action.id);
        },
      )

  -- The flush of the new row checks the constraint before the ledger is written.
  unfoldable pub create_action : ℕ → Db → IncidentRow → ActionSpec → Result (ActionRow × Db)
  create_action now db incident spec =
      if is_blast_radius spec.blast_radius
      then ok (add_action now db incident spec)
      else raise check_violation

  unfoldable pub is_low : Blast → Bool
  is_low low = true
  is_low _ = false

  unfoldable pub run_low : ℕ → ActionSpec → ActionRow → Db → Result (Bool × Db)
  run_low now spec action db =
      if is_low spec.blast_radius
      then (do (done, _, d) ← execute h now effectors db action; ok (done, d))
      else ok (false, db)

  -- One round of the inner loop.
  unfoldable pub dispatch : ℕ → IncidentRow → ActionSpec → Db → Result (Bool × Db)
  dispatch now incident spec db = do
    (action, db') ← create_action now db incident spec
    run_low now spec action db'

  abbrev pub Counts : Type 0
  Counts = ℕ × ℕ

  unfoldable pub dispatch_all :
      ℕ → IncidentRow → List ActionSpec → Counts → Db → Result (Counts × Db)
  dispatch_all now incident [] counts db = ok (counts, db)
  dispatch_all now incident (spec ∷ specs) (created, executed) db = do
    (done, db') ← dispatch now incident spec db
    dispatch_all now incident specs (created + 1, if done then executed + 1 else executed) db'

  -- `select(count()).where(ActionRow.incident_id == incident.id)`, as a test for zero.
  unfoldable pub already_handled : Db → ℕ → Bool
  already_handled db incident_id = any (λ a. a.incident_id == incident_id) db.actions

  unfoldable pub handle : ℕ → IncidentRow → Counts → Db → Result (Counts × Db)
  handle now incident counts db =
      if already_handled db incident.id
      then ok (counts, db)
      else dispatch_all now incident (evaluate db incident) counts db

  unfoldable pub handle_all : ℕ → List IncidentRow → Counts → Db → Result (Counts × Db)
  handle_all now [] counts db = ok (counts, db)
  handle_all now (i ∷ is') counts db = do
    (counts', db') ← handle now i counts db
    handle_all now is' counts' db'

  unfoldable pub max_id : ℕ → List IncidentRow → ℕ
  max_id cursor [] = cursor
  max_id cursor (i ∷ []) = i.id
  max_id cursor (i ∷ is') = max i.id (max_id cursor is')

  -- The whole transaction; a raised failure rolls it back.
  unfoldable pub tick : ℕ → Db → Result (Summary × Db)
  tick now db = do
    let fresh = expire_pending_approvals now db
    let rows = fetch_incidents fresh
    (counts, db') ← handle_all now rows (0, 0) fresh
    ok (
      record { incidents = length rows; actions_created = counts.0; auto_executed = counts.1 },
      set_cursor db' (max_id (get_cursor fresh) rows),
    )
