-- ===== src/Orchestrator/Transition.antt =====
-- TRANSITIONS and _transition of src/app/workers/orchestrator.py.
use sentraxis.Prelude.{
  ℕ, Bool, true, false, ◌||◌, Option, none, some, List, [], ◌∷◌, ◌++◌, String, Text, codes, any,
  if◌then◌else◌,
}
use sentraxis.Audit.{Hashing, Fields, end, field, txt, num, obj, append_entry}
use sentraxis.Orchestrator.Store.{
  ActionState, pending_approval, queued, executing, executed, failed, rejected, expired, dead,
  ActionRow, Db, put_action, Result, ok, raise, illegal_transition,
}

abbrev pub transitions : ActionState → List ActionState
transitions pending_approval = queued ∷ rejected ∷ expired ∷ []
transitions queued = executing ∷ failed ∷ []
transitions executing = executed ∷ failed ∷ []
transitions failed = queued ∷ dead ∷ []
transitions _ = []

unfoldable pub state_name : ActionState → String
state_name pending_approval = "pending_approval"
state_name queued = "queued"
state_name executing = "executing"
state_name executed = "executed"
state_name failed = "failed"
state_name rejected = "rejected"
state_name expired = "expired"
state_name dead = "dead"

unfoldable pub state_number : ActionState → ℕ
state_number pending_approval = 0
state_number queued = 1
state_number executing = 2
state_number executed = 3
state_number failed = 4
state_number rejected = 5
state_number expired = 6
state_number dead = 7

unfoldable pub state_eq : ActionState → ActionState → Bool
unfolding state_number
state_eq s t = sentraxis.Prelude.◌==◌ (state_number s) (state_number t)

-- `target in allowed`
unfoldable pub is_allowed : ActionState → ActionState → Bool
unfolding state_eq
is_allowed from to = any (state_eq to) (transitions from)

-- The argument `extra`: the attributes that a transition also sets, and adds to the payload.
pub data Extra : Type 0 where
  no_extra : Extra
  with_result : Fields → Extra
  with_decision : (decided_by : ℕ) (decision_reason : Text) → Extra

unfoldable pub set_extra : Extra → ActionRow → ActionRow
set_extra no_extra a = a
set_extra (with_result r) a = record a { result = some r }
set_extra (with_decision by why) a = record a { decided_by = some by; decision_reason = some why }

unfoldable pub extra_fields : Extra → Fields
extra_fields no_extra = end
extra_fields (with_result r) = field "result" (obj r) end
extra_fields (with_decision by why) =
    field "decided_by" (num by) (field "decision_reason" (txt why) end)

-- `func.now()` for a target that closes the request without running it.
unfoldable pub closing_time : ℕ → ActionState → Option ℕ → Option ℕ
closing_time now rejected old = some now
closing_time now expired old = some now
closing_time now _ old = old

unfoldable pub moved_row : ℕ → ActionRow → ActionState → Extra → ActionRow
unfolding closing_time set_extra
moved_row now action target extra = set_extra extra (record action {
  state = target;
  updated_at = now;
  decided_at = closing_time now target action.decided_at;
})

unfoldable pub event_type : ActionState → Text
unfolding state_name
event_type target = codes "action_" ++ codes (state_name target)

unfoldable pub transition_payload : ActionState → ActionState → Extra → Fields
unfolding state_name extra_fields
transition_payload from to extra =
    field "from" (txt (codes (state_name from)))
      (field "to" (txt (codes (state_name to))) (extra_fields extra))

module _ (h : Hashing) where
  unfoldable pub transition :
      ℕ → Db → ActionRow → ActionState → Text → Extra → Result (ActionRow × Db)
  transition now db action target actor extra =
      if is_allowed action.state target
      then ok (
        moved_row now action target extra,
        record db {
          actions = put_action (moved_row now action target extra) db.actions;
          audit =
              append_entry h now db.audit actor (event_type target)
                (transition_payload action.state target extra) (some "action") (some action.id);
        },
      )
      else raise (illegal_transition action.state target)
