-- ===== src/Orchestrator/Execute.antt =====
-- ResponseOrchestrator._execute of src/app/workers/orchestrator.py, and the two simulated
-- effectors.
use sentraxis.Prelude.{
  ℕ, ◌+◌, Bool, true, false, Option, none, some, List, [], ◌∷◌, ◌++◌, String, Text, codes, take,
  str_eq, if◌then◌else◌,
}
use sentraxis.Audit.{Hashing, Fields, end, field, txt, bool}
use sentraxis.Orchestrator.Store.{
  executing, executed, failed, ActionRow, EntityRow, get_entity, put_entity, Db, put_action, Result,
  ok, raise, ◌>>=◌,
}
use sentraxis.Orchestrator.Transition.{no_extra, with_result, transition}

-- An effector may write entities, and returns a result or raises with a message.
pub data Outcome : Type 0 where
  returned : Fields → Outcome
  raised : Text → Outcome

abbrev pub Effector : Type 0
Effector = ℕ → ActionRow → List EntityRow → List EntityRow × Outcome

-- The dictionary `effectors`.
unfoldable pub get_effector : String → List (String × Effector) → Option Effector
get_effector k [] = none
get_effector k ((j, e) ∷ m) = if str_eq j k then some e else get_effector k m

abbrev pub system_actor : Text
system_actor = codes "system:orchestrator"

unfoldable pub error_result : Text → Fields
error_result message = field "error" (txt message) end

module _ (h : Hashing) where
  abbrev pub Executed : Type 0
  Executed = Bool × ActionRow × Db

  unfoldable pub fail : ℕ → ActionRow → Db → Text → Result Executed
  fail now action db message = do
    (a, d) ← transition h now db action failed system_actor (with_result (error_result message))
    ok (false, a, d)

  -- The `try` around the effector's call and the transition that follows it.
  unfoldable pub finish : ℕ → ActionRow → Db → Outcome → Result Executed
  finish now action db (raised message) = fail now action db (take 300 message)
  finish now action db (returned result) =
      elim (transition h now db action executed system_actor (with_result result)) [
        | ok (a, d) ↦ ok (true, a, d)
        | raise e ↦ fail now action db (codes "illegal transition")
      ]

  unfoldable pub run_effector : ℕ → ActionRow → Db → Option Effector → Result Executed
  run_effector now action db none =
      fail now action db (codes "no effector registered for " ++ codes action.action_type)
  run_effector now action db (some effector) =
      let (entities, outcome) = effector now action db.entities in
      finish now action (record db { entities = entities }) outcome

  -- `action.attempt += 1`
  unfoldable pub count_attempt : ActionRow → ActionRow
  count_attempt a = record a { attempt = a.attempt + 1 }

  unfoldable pub execute : ℕ → List (String × Effector) → Db → ActionRow → Result Executed
  execute now effectors db action =
      elim (transition h now db action executing system_actor no_extra) [
        | raise e ↦ ok (false, action, db)
        | ok (a, d) ↦
            run_effector now (count_attempt a)
              (record d { actions = put_action (count_attempt a) d.actions })
              (get_effector action.action_type effectors)
      ]

abbrev pub hours_24 : ℕ
hours_24 = 86_400_000_000

-- `iso` stands for `datetime.isoformat`, and `vanished` for the message of the RuntimeError.
unfoldable pub quarantine_host_effector : (ℕ → Text) → (ℕ → Text) → Effector
unfolding get_entity put_entity
quarantine_host_effector iso vanished now action entities =
    elim (get_entity action.entity_id entities) [
      | none ↦ (entities, raised (vanished action.entity_id))
      | some e ↦ (
        put_entity (record e { status = "quarantined"; quarantined_until = some (now + hours_24) })
            entities,
        returned (
            field "simulated" (bool true) (
              field "effect" (txt (codes "host_quarantined")) (
                field "identifier" (txt (codes e.identifier))
                  (field "until" (txt (iso (now + hours_24))) end)))),
      )
    ]

unfoldable pub block_ip_effector : (ℕ → Text) → Effector
unfolding get_entity put_entity
block_ip_effector vanished now action entities = elim (get_entity action.entity_id entities) [
  | none ↦ (entities, raised (vanished action.entity_id))
  | some e ↦ (
    put_entity (record e { status = "blocked" }) entities,
    returned (
        field "simulated" (bool true) (
          field "effect" (txt (codes "ip_blocked_at_perimeter"))
            (field "identifier" (txt (codes e.identifier)) end))),
  )
]
