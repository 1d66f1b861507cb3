-- ===== src/Api/Actions.antt =====
-- src/app/api/actions.py: the approval endpoints over `decide`, with idempotency keys.
use sentraxis.Prelude.{
  ℕ, Bool, true, false, Option, none, some, List, [], ◌∷◌, ◌++◌, String, Text, codes, text_eq,
  find_first, leb, length, if◌then◌else◌,
}
use sentraxis.Orchestrator.Store.{
  pending_approval, ActionRow, Db, get_action, put_action, Failure, illegal_transition,
  action_not_found, not_pending, unknown_decision, check_violation, Result, ok, raise,
}
use sentraxis.Orchestrator.Transition.{state_eq}
use sentraxis.Orchestrator.Tick.{Env}
use sentraxis.Orchestrator.Decide.{Decision, decide}
use sentraxis.Api.Auth.{
  UserRow, Libraries, HttpError, granted, refused, get_current_user, require_roles,
  approver_or_admin, ◌>>=◌,
}

-- What the endpoint answers: the action's row and whether the answer is replayed, or an error.
pub data Reply : Type 0 where
  decided : (row : ActionRow) (replayed : Bool) → Reply
  failed_with : HttpError → Reply

-- `if idem_key:` holds for a key that is present and not empty.
unfoldable pub is_given : Option Text → Bool
is_given none = false
is_given (some []) = false
is_given (some (c ∷ cs)) = true

unfoldable pub has_key : Option Text → ActionRow → Bool
has_key none a = false
has_key (some key) a = elim a.idem_key [ none ↦ false | some k ↦ text_eq k key ]

-- `db.query(ActionRow).filter(ActionRow.idem_key == idem_key).first()`
unfoldable pub find_replay : Option Text → List ActionRow → Option ActionRow
find_replay key rows = if is_given key then find_first (has_key key) rows else none

-- `if idem_key and row.idem_key is None: row.idem_key = idem_key`
unfoldable pub with_key : Option Text → ActionRow → ActionRow
with_key key a =
    if is_given key
    then (elim a.idem_key [ none ↦ record a { idem_key = key } | some k ↦ a ])
    else a

-- The status of the answer; of the f-strings of the details only the fixed words are kept.
unfoldable pub conflict : Failure → HttpError
conflict (action_not_found n) = record { status = 404; detail = "action not found" }
conflict (illegal_transition s t) = record { status = 409; detail = "illegal transition" }
conflict (not_pending s) = record { status = 409; detail = "not pending" }
conflict (unknown_decision t) = record { status = 409; detail = "unknown decision" }
conflict check_violation = record { status = 500; detail = "Internal Server Error" }

module _ (env : Env) where
  -- The commit of a decision, or the rollback.
  unfoldable pub settle : Option Text → Db → Result (ActionRow × Db) → Reply × Db
  settle key db (raise e) = (failed_with (conflict e), db)
  settle key db (ok (row, after)) = (
    decided (with_key key row) false,
    record after { actions = put_action (with_key key row) after.actions },
  )

  unfoldable pub decide_fresh : ℕ → Decision → Option Text → ActionRow → Db → Reply × Db
  decide_fresh now d key row db =
      if state_eq row.state pending_approval
      then settle key db (decide env now d db)
      else (failed_with (record { status = 409; detail = "Action is not pending approval" }), db)

  -- `_decide`
  unfoldable pub decide_request : ℕ → Decision → Option Text → Db → Reply × Db
  decide_request now d key db = elim (get_action d.action_id db.actions) [
    | none ↦ (failed_with (record { status = 404; detail = "Action not found" }), db)
    | some row ↦ elim (find_replay key db.actions) [
      | some existing ↦ (decided existing true, db)
      | none ↦ decide_fresh now d key row db
    ]
  ]

  unfoldable pub reason_or : Text → Text → Text
  reason_or [] default = default
  reason_or (c ∷ cs) default = c ∷ cs

  unfoldable pub decision_of : String → String → ℕ → UserRow → Text → Decision
  decision_of word past action_id user reason = record {
    action_id = action_id;
    decision = word;
    approver_email = codes user.email;
    approver_id = user.id;
    reason = reason_or reason (codes past ++ codes " by " ++ codes user.email);
  }

  -- A request to one of the two endpoints; `seconds` is the clock that tokens are checked by.
  pub record Request : Type 0 where
    pub seconds : ℕ
    pub authorization : Text
    pub action_id : ℕ
    pub reason : Text
    pub idem_key : Option Text

  -- `DecisionBody.reason`, which FastAPI validates behind the dependencies.
  unfoldable pub validated : Text → Reply × Db → Db → Reply × Db
  validated reason answer db =
      if leb (length reason) 300
      then answer
      else (failed_with (record { status = 422; detail = "string_too_long" }), db)

  unfoldable pub guarded :
      Libraries → List UserRow → Request → (UserRow → Reply × Db) → Db → Reply × Db
  guarded lib users r handler db =
      elim (get_current_user lib r.seconds users r.authorization
        >>= require_roles approver_or_admin) [
          | refused e ↦ (failed_with e, db)
          | granted user ↦ validated r.reason (handler user) db
        ]

  unfoldable pub approve_action : Libraries → List UserRow → ℕ → Request → Db → Reply × Db
  approve_action lib users now r db =
      guarded lib users r
        (λ user.
          decide_request now (decision_of "approve" "approved" r.action_id user r.reason) r.idem_key
            db)
        db

  unfoldable pub reject_action : Libraries → List UserRow → ℕ → Request → Db → Reply × Db
  reject_action lib users now r db =
      guarded lib users r
        (λ user.
          decide_request now (decision_of "reject" "rejected" r.action_id user r.reason) r.idem_key
            db)
        db
