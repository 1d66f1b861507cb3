-- ===== src/Orchestrator/Decision.antt =====
-- The two branches of `decide` of src/app/workers/orchestrator.py that change the database.
use sentraxis.Prelude.{
  ℕ, ◌+◌, ◌≡◌, refl, ◌⊎◌, inl, inr, Bool, true, false, some, ◌++◌, Text, codes, take, arith,
  if◌then◌else◌,
}
use sentraxis.Orchestrator.Store.{
  ActionState, pending_approval, queued, executing, executed, failed, rejected, ActionRow, Db,
  put_action, Result, ok,
}
use sentraxis.Orchestrator.Transition.{is_allowed, state_eq, Extra, with_decision, moved_row}
use sentraxis.Orchestrator.Tick.{Env}
use sentraxis.Orchestrator.Decide.{Decision, stamp_decided, approve, reject}
use sentraxis.Orchestrator.Machine.{SameCore, Located}
use sentraxis.Orchestrator.Moves.{
  Did, Did-trans, moved_db, transition-eq-ok, moved-Did, touched-Did,
}
use sentraxis.Orchestrator.Running.{execute-Attempted}

abbrev pub decided : Decision → Extra
decided d = with_decision d.approver_id (take 300 d.reason)

abbrev pub actor_of : Decision → Text
actor_of d = codes "user:" ++ d.approver_email

stamp-SameCore : (now : ℕ) (a : ActionRow) → SameCore a (stamp_decided now a)
unfolding stamp_decided
stamp-SameCore now a = record {
  id = refl;
  state = refl;
  blast_radius = refl;
  decided_by = refl;
  created_at = refl;
}

pub pending_allows :
    (t : ActionState) → (t ≡ queued) ⊎ (t ≡ rejected) → is_allowed pending_approval t ≡ true
unfolding is_allowed state_eq
pending_allows t e = ground arith

pub is_pending_iff : (s : ActionState) → (state_eq s pending_approval ≡ true) → s ≡ pending_approval
unfolding state_eq
is_pending_iff s e = ground arith

pub pending-state_eq : (s : ActionState) → s ≡ pending_approval → state_eq s pending_approval ≡ true
unfolding state_eq
pending-state_eq s e = ground arith

runs : is_allowed queued executing ≡ false → ⊥
unfolding is_allowed state_eq
runs e = cc

outcome :
    (done : Bool) (s : ActionState)
    → s ≡ (if done then executed else failed)
    → (s ≡ executed) ⊎ (s ≡ failed)
outcome true s e = inl e
outcome false s e = inr e

module _ (env : Env) (now : ℕ) (d : Decision) where
  -- The row and the database between the two halves of an approval or a rejection.
  abbrev pub row_after : ActionState → ActionRow → ActionRow
  row_after t a = stamp_decided now (moved_row now a t (decided d))

  abbrev pub db_after : ActionState → ActionRow → Db → Db
  db_after t a db =
      let m = moved_db env.hashing now db a t (actor_of d) (decided d) in
      record m { actions = put_action (row_after t a) m.actions }

  pub decided-Did :
      (t : ActionState) (a : ActionRow) (db : Db)
      → Located a db.actions
      → is_allowed a.state t ≡ true
      → Did env.hashing db (row_after t a) (db_after t a db)
  decided-Did t a db l legal =
      let m = moved-Did env.hashing now db a t (actor_of d) (decided d) l legal (λ _ _. tt) in
      Did-trans env.hashing m (
        touched-Did env.hashing _ (moved_row now a t (decided d)) (row_after t a) m.1
          (stamp-SameCore now (moved_row now a t (decided d))))

  -- What an approval did.
  pub record Approved (a : ActionRow) (db : Db) (r : Result (ActionRow × Db)) : Type 0 where
    pub row : ActionRow
    pub after : Db
    pub returns : r ≡ ok (row, after)
    pub did : Did env.hashing db row after
    pub decided_by : row.decided_by ≡ some d.approver_id
    pub attempt : row.attempt ≡ a.attempt + 1
    pub state : (row.state ≡ executed) ⊎ (row.state ≡ failed)

  pub approve-Approved :
      (a : ActionRow) (db : Db)
      → Located a db.actions
      → a.state ≡ pending_approval
      → Approved a db (approve env now d a db)
  unfolding approve moved_row stamp_decided
  approve-Approved a db l pending =
      let legal : is_allowed a.state queued ≡ true =
        rw pending (pending_allows queued (inl refl)) in
      let first = decided-Did queued a db l legal in
      let ran =
        execute-Attempted env.hashing now env.effectors (db_after queued a db) (row_after queued a)
          first.1 in
      record {
        row = ran.row;
        after = ran.after;
        returns = rw (
          transition-eq-ok env.hashing now db a queued (actor_of d) (decided d) legal,
          ran.returns,
        );
        did = Did-trans env.hashing first ran.did;
        decided_by = ran.decided_by;
        attempt = elim ran.attempts [
          | inl (_, n, _) ↦ n
          | inr (stuck, _, _, _) ↦ absurd (runs stuck)
        ];
        state = elim ran.attempts [
          | inl (_, _, s) ↦ outcome ran.done _ s
          | inr (stuck, _, _, _) ↦ absurd (runs stuck)
        ];
      }

  pub reject_lem :
      (a : ActionRow) (db : Db)
      → a.state ≡ pending_approval
      → reject env now d a db ≡ ok (row_after rejected a, db_after rejected a db)
  unfolding reject
  reject_lem a db pending = rw (
      transition-eq-ok env.hashing now db a rejected (actor_of d) (decided d)
        (rw pending (pending_allows rejected (inr refl))))
