-- ===== src/Orchestrator/Running.antt =====
-- `_execute` of src/app/workers/orchestrator.py as steps of the machine.
use sentraxis.Prelude.{
  ℕ, ◌+◌, ◌≡◌, refl, ◌⊎◌, inl, inr, Bool, true, false, Option, none, some, List, String, Text, take,
  Bool-cases, if◌then◌else◌,
}
use sentraxis.Audit.{Hashing, Fields}
use sentraxis.Orchestrator.Store.{
  ActionState, queued, executing, executed, failed, ActionRow, Db, put_action, Result, ok,
}
use sentraxis.Orchestrator.Transition.{state_eq, is_allowed, no_extra, with_result, moved_row}
use sentraxis.Orchestrator.Execute.{
  Effector, Outcome, returned, raised, system_actor, fail, finish, run_effector, get_effector,
  error_result, count_attempt, execute,
}
use sentraxis.Orchestrator.Machine.{Step, Steps, Step-Steps, Steps-trans, Located}
use sentraxis.Orchestrator.Moves.{
  Did, Did-trans, moved_db, transition-eq-ok, transition-eq-raise, moved-Did, touched-Did,
}

module _ (h : Hashing) where
  -- A call of `_execute` that began with row `a`: it returns, and what it did.
  pub record Ran (db : Db) (a : ActionRow) (r : Result (Bool × ActionRow × Db)) : Type 0 where
    pub done : Bool
    pub row : ActionRow
    pub after : Db
    pub returns : r ≡ ok (done, row, after)
    pub did : Did h db row after
    pub decided_by : row.decided_by ≡ a.decided_by
    pub attempt : row.attempt ≡ a.attempt
    pub state : row.state ≡ (if done then executed else failed)

  module _ (now : ℕ) (db : Db) (a : ActionRow) (l : Located a db.actions)
      (running : a.state ≡ executing) where
    settled :
        (t : ActionState) (x : Fields)
        → is_allowed a.state t ≡ true
        → (t ≡ queued → ⊥)
        → Did h db
            (moved_row now a t (with_result x))
            (moved_db h now db a t system_actor (with_result x))
    settled t x legal not_queued =
        moved-Did h now db a t system_actor (with_result x) l legal (λ _ q. absurd (not_queued q))

    allowed_failed : is_allowed a.state failed ≡ true
    unfolding is_allowed state_eq
    allowed_failed = rw running

    allowed_executed : is_allowed a.state executed ≡ true
    unfolding is_allowed state_eq
    allowed_executed = rw running

    fail-Ran : (message : Text) → Ran db a (fail h now a db message)
    unfolding fail moved_row
    fail-Ran message = record {
      done = false;
      row = moved_row now a failed (with_result (error_result message));
      after = moved_db h now db a failed system_actor (with_result (error_result message));
      returns = rw (
          transition-eq-ok h now db a failed system_actor (with_result (error_result message))
            allowed_failed);
      did = settled failed (error_result message) allowed_failed (λ q. cc);
      decided_by = refl;
      attempt = refl;
      state = refl;
    }

    finish-Ran : (o : Outcome) → Ran db a (finish h now a db o)
    unfolding finish moved_row
    finish-Ran (raised message) = fail-Ran (take 300 message)
    finish-Ran (returned result) = record {
      done = true;
      row = moved_row now a executed (with_result result);
      after = moved_db h now db a executed system_actor (with_result result);
      returns = rw (
        transition-eq-ok h now db a executed system_actor (with_result result) allowed_executed,
        finish,
      );
      did = settled executed result allowed_executed (λ q. cc);
      decided_by = refl;
      attempt = refl;
      state = refl;
    }

  run_effector-Ran :
      (now : ℕ) (db : Db) (a : ActionRow) (e : Option Effector)
      → Located a db.actions
      → a.state ≡ executing
      → Ran db a (run_effector h now a db e)
  unfolding run_effector
  run_effector-Ran now db a none l running = fail-Ran now db a l running _
  run_effector-Ran now db a (some effector) l running =
      let es = (effector now a db.entities).0 in
      let ran =
        finish-Ran now (record db { entities = es }) a l running (effector now a db.entities).1 in
      record {
        done = ran.done;
        row = ran.row;
        after = ran.after;
        returns = ran.returns;
        did = (Steps-trans h (Step-Steps h (Step.effected es refl)) ran.did.0, ran.did.1);
        decided_by = ran.decided_by;
        attempt = ran.attempt;
        state = ran.state;
      }

  -- Any call of `_execute` on a row of the table: it returns, and what it did.
  pub record Attempted (db : Db) (a : ActionRow) (r : Result (Bool × ActionRow × Db)) : Type 0 where
    pub done : Bool
    pub row : ActionRow
    pub after : Db
    pub returns : r ≡ ok (done, row, after)
    pub did : Did h db row after
    pub decided_by : row.decided_by ≡ a.decided_by
    pub attempts :
        (is_allowed a.state executing ≡ true)
          × (row.attempt ≡ a.attempt + 1)
          × (row.state ≡ (if done then executed else failed))
        ⊎ (is_allowed a.state executing ≡ false) × (row ≡ a) × (after ≡ db) × (done ≡ false)

  count_attempt-Did :
      (db : Db) (a : ActionRow)
      → Located a db.actions
      → Did h db
          (count_attempt h a)
          (record db { actions = put_action (count_attempt h a) db.actions })
  unfolding count_attempt
  count_attempt-Did db a l = touched-Did h db a (count_attempt h a) l (record {
    id = refl;
    state = refl;
    blast_radius = refl;
    decided_by = refl;
    created_at = refl;
  })

  started-Did :
      (now : ℕ) (db : Db) (a : ActionRow)
      → Located a db.actions
      → is_allowed a.state executing ≡ true
      → Did h db
          (moved_row now a executing no_extra)
          (moved_db h now db a executing system_actor no_extra)
  started-Did now db a l legal =
      moved-Did h now db a executing system_actor no_extra l legal (λ _ q. cc)

  -- Executing a stored action always returns: if its state may move to executing it is attempted once
  -- and ends as executed or failed, as the answer says, and otherwise the action and the database are
  -- left as they are; the recorded decider stays, and what was done is a sequence of steps.
  pub execute-Attempted :
      (now : ℕ) (effectors : List (String × Effector)) (db : Db) (a : ActionRow)
      → Located a db.actions
      → Attempted db a (execute h now effectors db a)
  unfolding execute count_attempt moved_row
  execute-Attempted now effectors db a l = elim (Bool-cases (is_allowed a.state executing)) [
    | inr illegal ↦ record {
      done = false;
      row = a;
      after = db;
      returns =
          rw (transition-eq-raise h now db a executing system_actor no_extra illegal, execute);
      did = (Steps.here, l);
      decided_by = refl;
      attempts = inr (illegal, refl, refl, refl);
    }
    | inl legal ↦
        let d1 = moved_db h now db a executing system_actor no_extra in
        let start = started-Did now db a l legal in
        let counted = count_attempt-Did d1 (moved_row now a executing no_extra) start.1 in
        let ran =
          run_effector-Ran now
            (record d1 {
              actions =
                  put_action (count_attempt h (moved_row now a executing no_extra)) d1.actions;
            })
            (count_attempt h (moved_row now a executing no_extra))
            (get_effector a.action_type effectors) counted.1 refl in
        record {
          done = ran.done;
          row = ran.row;
          after = ran.after;
          returns =
              rw (transition-eq-ok h now db a executing system_actor no_extra legal, execute)
                ran.returns;
          did = Did-trans h (Did-trans h start counted) ran.did;
          decided_by = ran.decided_by;
          attempts = inl (legal, ran.attempt, ran.state);
        }
  ]
