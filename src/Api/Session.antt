-- ===== src/Api/Session.antt =====
-- Requests to src/app/api/actions.py and ticks of src/app/workers/orchestrator.py, one transaction
-- after the other in any order: what holds of every such run.
use sentraxis.Prelude.{
  ℕ, ◌≡◌, refl, Option, List, [], ◌∷◌, arith, Bool-cases, Option-cases, inl, inr, leb, length,
}
use sentraxis.Audit.Chain.{IsIntact, IsIntact-iff-Chain}
use sentraxis.Orchestrator.Store.{ActionRow, Db, get_action, pending_approval, Result, ok, raise}
use sentraxis.Orchestrator.Transition.{state_eq}
use sentraxis.Orchestrator.Tick.{Env, tick}
use sentraxis.Orchestrator.Decide.{Decision, decide}
use sentraxis.Orchestrator.Machine.{SameCore, Steps, Steps-trans}
use sentraxis.Orchestrator.Moves.{touched-Did}
use sentraxis.Orchestrator.Refine.{tick-Runs}
use sentraxis.Orchestrator.Outcome.{decide_needs_pending}
use sentraxis.Orchestrator.Guarantees.{
  AllApproved, Steps-AllApproved, Steps-LedgerChain, Extends, Steps-Extends,
}
use sentraxis.Api.Auth.{
  UserRow, Libraries, Checked, granted, refused, get_current_user, require_roles, approver_or_admin,
  ◌>>=◌,
}
use sentraxis.Api.Actions.{
  Reply, Request, find_replay, with_key, settle, decide_fresh, decide_request, validated, guarded,
  approve_action, reject_action,
}

-- What reaches the database: a tick, or a call of one of the endpoints, with the stamp of its
-- transaction.
pub data Event (env : Env) : Type 0 where
  ticked : ℕ → Event env
  approving rejecting : ℕ → Request env → Event env

module _ (env : Env) (lib : Libraries) (users : List UserRow) where
  -- A tick that raises is rolled back.
  unfoldable pub committed : {A : Type 0} → Db → Result (A × Db) → Db
  committed db (ok (x, after)) = after
  committed db (raise e) = db

  unfoldable pub happen : Event env → Db → Db
  unfolding committed
  happen (ticked now) db = committed db (tick env now db)
  happen (approving now r) db = (approve_action env lib users now r db).1
  happen (rejecting now r) db = (reject_action env lib users now r db).1

  unfoldable pub run : List (Event env) → Db → Db
  unfolding happen
  run [] db = db
  run (e ∷ es) db = run es (happen e db)

  with_key-SameCore : (key : Option (List ℕ)) (a : ActionRow) → SameCore a (with_key key a)
  unfolding with_key
  with_key-SameCore key a = ground arith

  settle-Steps :
      (now : ℕ) (d : Decision) (key : Option (List ℕ)) (db : Db) (r : Result (ActionRow × Db))
      → decide env now d db ≡ r
      → Steps env.hashing db (settle env key db r).1
  unfolding settle
  settle-Steps now d key db (raise e) p = Steps.here
  settle-Steps now d key db (ok (row, after)) p =
      let (_, _, _, did) = decide_needs_pending env now d db row after p in
      Steps-trans env.hashing did.0
        (touched-Did env.hashing after row (with_key key row) did.1 (with_key-SameCore key row)).0

  decide_request-Steps :
      (now : ℕ) (d : Decision) (key : Option (List ℕ)) (db : Db)
      → Steps env.hashing db (decide_request env now d key db).1
  unfolding decide_request decide_fresh
  decide_request-Steps now d key db = elim (Option-cases (get_action d.action_id db.actions)) [
    | inl absent ↦ rw (absent, decide_request) Steps.here
    | inr (row, found) ↦ elim (Option-cases (find_replay key db.actions)) [
      | inr (old, again) ↦ rw (found, again, decide_request) Steps.here
      | inl fresh ↦ elim (Bool-cases (state_eq row.state pending_approval)) [
        | inl open' ↦ rw (found, fresh, open', decide_request) (settle-Steps now d key db _ refl)
        | inr shut ↦ rw (found, fresh, shut, decide_request) Steps.here
      ]
    ]
  ]

  guarded-Steps :
      (r : Request env) (handler : UserRow → Reply × Db) (db : Db)
      → ((u : UserRow) → Steps env.hashing db (handler u).1)
      → Steps env.hashing db (guarded env lib users r handler db).1
  unfolding guarded validated
  guarded-Steps r handler db h =
      go (get_current_user lib r.seconds users r.authorization >>= require_roles approver_or_admin)
    where
      go :
          (c : Checked UserRow)
          → Steps env.hashing db (
              let answer : Reply × Db = elim c [
                | refused e ↦ (Reply.failed_with e, db)
                | granted u ↦ validated env r.reason (handler u) db
              ] in
              answer.1)
      go (refused e) = Steps.here
      go (granted u) = elim (Bool-cases (leb (length r.reason) 300)) [
        | inl short ↦ rw short (h u)
        | inr long ↦ rw long Steps.here
      ]

  happen-Steps : (e : Event env) (db : Db) → Steps env.hashing db (happen e db)
  unfolding happen committed approve_action reject_action
  happen-Steps (ticked now) db = elim (tick-Runs env now db) [
    | inl (_, after, e, steps) ↦ rw e steps
    | inr (e, _) ↦ rw e Steps.here
  ]
  happen-Steps (approving now r) db =
      guarded-Steps r _ db (λ u. decide_request-Steps now _ r.idem_key db)
  happen-Steps (rejecting now r) db =
      guarded-Steps r _ db (λ u. decide_request-Steps now _ r.idem_key db)

  run-Steps : (es : List (Event env)) (db : Db) → Steps env.hashing db (run es db)
  unfolding run
  run-Steps [] db = Steps.here
  run-Steps (e ∷ es) db = Steps-trans env.hashing (happen-Steps e db) (run-Steps es (happen e db))

  -- In any run of ticks and approval requests, if at the start every released action of high blast
  -- radius names who decided it, this holds at the end: such an action is never queued, executing,
  -- executed or failed without a recorded human decision.
  pub run-AllApproved : (es : List (Event env)) (db : Db) → AllApproved db → AllApproved (run es db)
  run-AllApproved es db = Steps-AllApproved env.hashing (run-Steps es db)

  -- In any run the ledger keeps passing verification if it passed at the start, and its old rows
  -- stand unchanged before the new ones.
  pub run-IsIntact :
      (es : List (Event env)) (db : Db)
      → IsIntact env.hashing db.audit
      → IsIntact env.hashing (run es db).audit × Extends env.hashing db.audit (run es db).audit
  run-IsIntact es db i = (
    (IsIntact-iff-Chain env.hashing _).1
        (Steps-LedgerChain env.hashing (run-Steps es db) ((IsIntact-iff-Chain env.hashing _).0 i)),
    Steps-Extends env.hashing (run-Steps es db),
  )
