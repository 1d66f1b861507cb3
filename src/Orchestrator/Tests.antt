-- ===== src/Orchestrator/Tests.antt =====
-- The theorems about src/app/workers/orchestrator.py at the example database.
use sentraxis.Prelude.{
  ◌++◌, true, List, ◌⊎◌, ℕ, ◌+◌, ◌≡◌, refl, false, some, [], ◌∷◌, codes, map, length, keep, All,
}
use sentraxis.Orchestrator.Seed.{
  default_playbooks, has_playbook, seed_playbooks, seed_playbooks_lem, AreDistinct, fits_columns,
  is_text, fits_blast_radius,
}
use sentraxis.Orchestrator.Store.{
  PlaybookRow, pending_approval, queued, rejected, ActionRow, Db, get_action, ok, raise,
  check_violation,
}
use sentraxis.Orchestrator.Execute.{execute}
use sentraxis.Orchestrator.Tick.{tick, expiry_cutoff, is_stale, expire_pending_approvals}
use sentraxis.Orchestrator.Decide.{Decision, decide}
use sentraxis.Orchestrator.Moves.{Did}
use sentraxis.Orchestrator.Refine.{Runs, all_admitted, tick-Runs}
use sentraxis.Orchestrator.Running.{Attempted, execute-Attempted}
use sentraxis.Orchestrator.Expiry.{expire_row, expire_pending_approvals_lem}
use sentraxis.Orchestrator.Decision.{Approved, row_after, db_after}
use sentraxis.Orchestrator.Outcome.{decide_approves, decide_rejects, decide_needs_pending}
use sentraxis.Orchestrator.Example.{short_hashing, example_env, action_in, waiting_db, decision}

abbrev rejection : Decision
rejection = record (decision (codes "no")) { decision = "reject" }

abbrev later_than_all : ℕ
later_than_all = 9_000_000_000

tick-Runs_example :
    Runs short_hashing waiting_db (tick example_env 50 waiting_db)
    ⊎ ((tick example_env 50 waiting_db ≡ raise check_violation)
        × (all_admitted example_env waiting_db ≡ false))
tick-Runs_example = tick-Runs example_env 50 waiting_db

decide_approves_example :
    Approved example_env 50
      (decision (codes "ok"))
      (action_in pending_approval)
      waiting_db
      (decide example_env 50 (decision (codes "ok")) waiting_db)
unfolding get_action
decide_approves_example =
    decide_approves example_env 50 (decision (codes "ok")) (action_in pending_approval) waiting_db
      refl refl refl

decide_rejects_example :
    (decide example_env 50 rejection waiting_db
      ≡ ok (
        row_after example_env 50 rejection rejected (action_in pending_approval),
        db_after example_env 50 rejection rejected (action_in pending_approval) waiting_db,
      ))
    × Did short_hashing waiting_db
        (row_after example_env 50 rejection rejected (action_in pending_approval))
        (db_after example_env 50 rejection rejected (action_in pending_approval) waiting_db)
    × ((row_after example_env 50 rejection rejected (action_in pending_approval)).state ≡ rejected)
    × ((row_after example_env 50 rejection rejected (action_in pending_approval)).decided_by
        ≡ some 2)
    × ((row_after example_env 50 rejection rejected (action_in pending_approval)).decided_at
        ≡ some 50)
    × ((db_after example_env 50 rejection rejected (action_in pending_approval) waiting_db).entities
        ≡ waiting_db.entities)
unfolding get_action
decide_rejects_example =
    decide_rejects example_env 50 rejection (action_in pending_approval) waiting_db refl refl refl
      refl

rejects :
    decide example_env 50 rejection waiting_db
    ≡ ok (
      row_after example_env 50 rejection rejected (action_in pending_approval),
      db_after example_env 50 rejection rejected (action_in pending_approval) waiting_db,
    )
unfolding get_action
rejects =
    (decide_rejects example_env 50 rejection (action_in pending_approval) waiting_db refl refl refl
      refl).0

decide_needs_pending_example :
    (a : ActionRow) × (get_action 7 waiting_db.actions ≡ some a)
    × (a.state ≡ pending_approval)
    × Did short_hashing waiting_db
        (row_after example_env 50 rejection rejected (action_in pending_approval))
        (db_after example_env 50 rejection rejected (action_in pending_approval) waiting_db)
decide_needs_pending_example =
    decide_needs_pending example_env 50 rejection waiting_db
      (row_after example_env 50 rejection rejected (action_in pending_approval))
      (db_after example_env 50 rejection rejected (action_in pending_approval) waiting_db) rejects

abbrev queued_db : Db
queued_db = record waiting_db { actions = action_in queued ∷ [] }

execute-Attempted_example :
    Attempted short_hashing queued_db
      (action_in queued)
      (execute short_hashing 50 example_env.effectors queued_db (action_in queued))
execute-Attempted_example =
    execute-Attempted short_hashing 50 example_env.effectors queued_db (action_in queued)
      (record { before = []; after = []; split = refl; first = tt })

expire_pending_approvals_lem_example :
    let cutoff = expiry_cutoff example_env.settings later_than_all in
    let after = expire_pending_approvals example_env later_than_all waiting_db in
    (after.actions ≡ map (expire_row later_than_all cutoff) waiting_db.actions)
    × (length after.audit.rows
        ≡ length waiting_db.audit.rows + length (keep (is_stale cutoff) waiting_db.actions))
    × All (λ a. is_stale cutoff a ≡ false) after.actions
expire_pending_approvals_lem_example =
    expire_pending_approvals_lem example_env later_than_all waiting_db

distinct_defaults : AreDistinct default_playbooks
distinct_defaults = ((refl, _), (_, _))

defaults-fit : All (λ d. fits_columns d ≡ true) default_playbooks
unfolding fits_columns is_text fits_blast_radius
defaults-fit = (refl, (refl, tt))

seed_playbooks_lem_example :
    (more : List PlaybookRow) × (seed_playbooks 2 default_playbooks waiting_db.playbooks
      ≡ (some (waiting_db.playbooks ++ more), length more))
    × All (λ d. has_playbook d (waiting_db.playbooks ++ more) ≡ true) default_playbooks
    × (seed_playbooks 9 default_playbooks (waiting_db.playbooks ++ more)
        ≡ (some (waiting_db.playbooks ++ more), 0))
seed_playbooks_lem_example =
    seed_playbooks_lem 2 9 default_playbooks waiting_db.playbooks distinct_defaults defaults-fit
