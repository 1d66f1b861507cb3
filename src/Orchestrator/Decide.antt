-- ===== src/Orchestrator/Decide.antt =====
-- ResponseOrchestrator.decide of src/app/workers/orchestrator.py.
use sentraxis.Prelude.{ℕ, none, some, ◌++◌, String, Text, codes, take, str_eq, if◌then◌else◌}
use sentraxis.Orchestrator.Store.{
  pending_approval, queued, rejected, ActionRow, Db, get_action, put_action, action_not_found,
  not_pending, unknown_decision, Result, ok, raise, ◌>>=◌,
}
use sentraxis.Orchestrator.Transition.{state_eq, with_decision, transition}
use sentraxis.Orchestrator.Execute.{execute}
use sentraxis.Orchestrator.Tick.{Env}

-- The argument of `decide`.
pub record Decision : Type 0 where
  pub action_id : ℕ
  pub decision : String
  pub approver_email : Text
  pub approver_id : ℕ
  pub reason : Text

-- `action.decided_at = func.now()`
unfoldable pub stamp_decided : ℕ → ActionRow → ActionRow
stamp_decided now a = record a { decided_at = some now }

module _ (env : Env) where
  open env use {hashing as h, effectors}

  unfoldable pub approve : ℕ → Decision → ActionRow → Db → Result (ActionRow × Db)
  approve now d action db = do
    (a, db') ←
        transition h now db action queued (codes "user:" ++ d.approver_email)
          (with_decision d.approver_id (take 300 d.reason))
    (_, a', db'') ←
        execute h now effectors
          (record db' { actions = put_action (stamp_decided now a) db'.actions })
          (stamp_decided now a)
    ok (a', db'')

  unfoldable pub reject : ℕ → Decision → ActionRow → Db → Result (ActionRow × Db)
  reject now d action db = do
    (a, db') ←
        transition h now db action rejected (codes "user:" ++ d.approver_email)
          (with_decision d.approver_id (take 300 d.reason))
    ok (stamp_decided now a, record db' { actions = put_action (stamp_decided now a) db'.actions })

  unfoldable pub decide_row : ℕ → Decision → ActionRow → Db → Result (ActionRow × Db)
  decide_row now d action db =
      if state_eq action.state pending_approval
      then (if str_eq d.decision "approve"
          then approve now d action db
          else if str_eq d.decision "reject"
          then reject now d action db
          else raise (unknown_decision d.decision))
      else raise (not_pending action.state)

  unfoldable pub decide : ℕ → Decision → Db → Result (ActionRow × Db)
  decide now d db = elim (get_action d.action_id db.actions) [
    | none ↦ raise (action_not_found d.action_id)
    | some action ↦ decide_row now d action db
  ]
