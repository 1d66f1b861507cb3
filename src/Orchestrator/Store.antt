-- ===== src/Orchestrator/Store.antt =====
-- The rows of src/app/persistence/models.py that the orchestrator and the action endpoints use. A
-- stamp is a number of microseconds. `Db` is the database as one transaction sees it.
use sentraxis.Prelude.{
  ℕ, Bool, Option, none, some, List, [], ◌∷◌, String, Text, ◌==◌, if◌then◌else◌,
}
use sentraxis.Audit.{AuditLog, Fields}
use sentraxis.Policy.{PlaybookDef, Blast}

pub data ActionState : Type 0 where
  pending_approval queued executing executed failed rejected expired dead : ActionState

pub record EntityRow : Type 0 where
  pub id : ℕ
  pub identifier : String
  pub status : String
  pub quarantined_until : Option ℕ

pub record PlaybookRow : Type 0 where
  pub id : ℕ
  pub definition : PlaybookDef
  pub enabled : Bool

-- `techniques` has the id of each element, `none` for one that is no object or has no id.
pub record IncidentRow : Type 0 where
  pub id : ℕ
  pub entity_id : ℕ
  pub title : Text
  pub risk_score : ℕ
  pub techniques : List (Option String)

pub record DetectionRow : Type 0 where
  pub id : ℕ
  pub detector : String

pub record IncidentDetectionRow : Type 0 where
  pub incident_id : ℕ
  pub detection_id : ℕ

pub record ActionParams : Type 0 where
  pub entity_identifier : Text
  pub reason : Text
  pub incident_title : Text

pub record ActionRow : Type 0 where
  pub id : ℕ
  pub incident_id : ℕ
  pub playbook_id : Option ℕ
  pub playbook_version : ℕ
  pub action_type : String
  pub blast_radius : Blast
  pub entity_id : ℕ
  pub params : ActionParams
  pub state : ActionState
  pub attempt : ℕ
  pub result : Option Fields
  pub decided_by : Option ℕ
  pub decision_reason : Option Text
  pub idem_key : Option Text
  pub created_at : ℕ
  pub updated_at : ℕ
  pub decided_at : Option ℕ

-- Actions stand newest first; no query of the program depends on the order of that table, and ids
-- come from `next_action_id`. The cursor is the row "orchestrator" of `worker_cursors`.
pub record Db : Type 0 where
  pub entities : List EntityRow
  pub playbooks : List PlaybookRow
  pub incidents : List IncidentRow
  pub detections : List DetectionRow
  pub links : List IncidentDetectionRow
  pub actions : List ActionRow
  pub next_action_id : ℕ
  pub cursor : Option ℕ
  pub audit : AuditLog

-- `session.get(EntityRow, id)`
unfoldable pub get_entity : ℕ → List EntityRow → Option EntityRow
get_entity k [] = none
get_entity k (e ∷ es) = if e.id == k then some e else get_entity k es

unfoldable pub put_entity : EntityRow → List EntityRow → List EntityRow
put_entity e [] = []
put_entity e (x ∷ xs) = if x.id == e.id then e ∷ xs else x ∷ put_entity e xs

-- `session.get(ActionRow, id)`
unfoldable pub get_action : ℕ → List ActionRow → Option ActionRow
get_action k [] = none
get_action k (a ∷ as') = if a.id == k then some a else get_action k as'

-- The write of a changed row object.
unfoldable pub put_action : ActionRow → List ActionRow → List ActionRow
put_action a [] = []
put_action a (x ∷ xs) = if x.id == a.id then a ∷ xs else x ∷ put_action a xs

-- What a method raises.
pub data Failure : Type 0 where
  illegal_transition : ActionState → ActionState → Failure
  action_not_found : ℕ → Failure
  not_pending : ActionState → Failure
  unknown_decision : String → Failure
  -- the IntegrityError of a CHECK constraint
  check_violation : Failure

pub data Result {ℓ} (A : Type ℓ) : Type ℓ where
  ok : A → Result A
  raise : Failure → Result A

infixl 5 ◌>>=◌ ◌>>◌
abbrev pub ◌>>=◌ {ℓ κ} : {A : Type ℓ} {B : Type κ} → Result A → (A → Result B) → Result B
ok a >>= f = f a
raise e >>= f = raise e

abbrev pub ◌>>◌ {ℓ} : {B : Type ℓ} → Result (Unit {0}) → Result B → Result B
m >> k = m >>= λ _. k
