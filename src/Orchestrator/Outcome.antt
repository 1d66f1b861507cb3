-- ===== src/Orchestrator/Outcome.antt =====
-- What `decide` of src/app/workers/orchestrator.py does, on every branch.
use sentraxis.Prelude.{
  ℕ, ◌≡◌, refl, subst, ◌∙◌, ◌⊎◌, inl, inr, true, false, some, str_eq, Bool-cases, Option-cases,
}
use sentraxis.Orchestrator.Store.{
  pending_approval, rejected, ActionRow, Db, get_action, Failure, ok, raise,
}
use sentraxis.Orchestrator.Transition.{state_eq, moved_row}
use sentraxis.Orchestrator.Tick.{Env}
use sentraxis.Orchestrator.Decide.{Decision, stamp_decided, approve, reject, decide_row, decide}
use sentraxis.Orchestrator.Machine.{get_action-Located}
use sentraxis.Orchestrator.Moves.{Did}
use sentraxis.Orchestrator.Decision.{
  pending_allows, is_pending_iff, pending-state_eq, row_after, db_after, decided-Did,
  approve-Approved, reject_lem, Approved,
}

module _ (env : Env) (now : ℕ) (d : Decision) where
  decide_found :
      (a : ActionRow) (db : Db)
      → get_action d.action_id db.actions ≡ some a
      → decide env now d db ≡ decide_row env now d a db
  unfolding decide
  decide_found a db found = rw (found, decide)

  decide_row-approve :
      (a : ActionRow) (db : Db)
      → a.state ≡ pending_approval
      → str_eq d.decision "approve" ≡ true
      → decide_row env now d a db ≡ approve env now d a db
  unfolding decide_row
  decide_row-approve a db p w = rw (pending-state_eq a.state p, w)

  decide_row-reject :
      (a : ActionRow) (db : Db)
      → a.state ≡ pending_approval
      → str_eq d.decision "approve" ≡ false
      → str_eq d.decision "reject" ≡ true
      → decide_row env now d a db ≡ reject env now d a db
  unfolding decide_row
  decide_row-reject a db p v w = rw (pending-state_eq a.state p, v, w)

  decide_row-eq-ok :
      (a : ActionRow) (db : Db) (x : ActionRow × Db)
      → decide_row env now d a db ≡ ok x
      → (a.state ≡ pending_approval)
        × ((str_eq d.decision "approve" ≡ true)
            ⊎ (str_eq d.decision "approve" ≡ false) × (str_eq d.decision "reject" ≡ true))
  unfolding decide_row
  decide_row-eq-ok a db x e = elim (Bool-cases (state_eq a.state pending_approval)) [
    | inr other_state ↦ absurd (not_ok (rw other_state at e))
    | inl p ↦ elim (Bool-cases (str_eq d.decision "approve")) [
      | inl w ↦ (is_pending_iff a.state p, inl w)
      | inr v ↦ elim (Bool-cases (str_eq d.decision "reject")) [
        | inl w ↦ (is_pending_iff a.state p, inr (v, w))
        | inr w ↦ absurd (not_ok (rw (p, v, w) at e))
      ]
    ]
  ]
    where
      not_ok : {f : Failure} → raise f ≡ ok x → ⊥
      not_ok q = cc

  -- Approving a pending action always returns: the action is attempted once more, ends in the state
  -- executed or failed, and names the approver; all of it is a sequence of steps of the machine.
  pub decide_approves :
      (a : ActionRow) (db : Db)
      → get_action d.action_id db.actions ≡ some a
      → a.state ≡ pending_approval
      → str_eq d.decision "approve" ≡ true
      → Approved env now d a db (decide env now d db)
  decide_approves a db found pending word =
      rw (decide_found a db found ∙ decide_row-approve a db pending word) (
        approve-Approved env now d a db (get_action-Located d.action_id db.actions a found) pending)

  -- Rejecting a pending action stores it as rejected by the decider at that time, runs no effector,
  -- and is a sequence of steps of the machine.
  pub decide_rejects :
      (a : ActionRow) (db : Db)
      → get_action d.action_id db.actions ≡ some a
      → a.state ≡ pending_approval
      → str_eq d.decision "approve" ≡ false
      → str_eq d.decision "reject" ≡ true
      → (decide env now d db
          ≡ ok (row_after env now d rejected a, db_after env now d rejected a db))
        × Did env.hashing db (row_after env now d rejected a) (db_after env now d rejected a db)
        × ((row_after env now d rejected a).state ≡ rejected)
        × ((row_after env now d rejected a).decided_by ≡ some d.approver_id)
        × ((row_after env now d rejected a).decided_at ≡ some now)
        × ((db_after env now d rejected a db).entities ≡ db.entities)
  unfolding moved_row stamp_decided
  decide_rejects a db found pending no_word word = (
    decide_found a db found
        ∙ decide_row-reject a db pending no_word word
        ∙ reject_lem env now d a db pending,
    decided-Did env now d rejected a db (get_action-Located d.action_id db.actions a found)
        (rw pending (pending_allows rejected (inr refl))),
    refl,
    refl,
    refl,
    refl,
  )

  decide-eq-ok :
      (db : Db) (x : ActionRow × Db)
      → decide env now d db ≡ ok x
      → (a : ActionRow) × (get_action d.action_id db.actions ≡ some a)
        × (decide_row env now d a db ≡ ok x)
  unfolding decide
  decide-eq-ok db x e = elim (Option-cases (get_action d.action_id db.actions)) [
    | inl absent ↦ absurd (not_ok (rw (absent, decide) at e))
    | inr (a, found) ↦ (a, found, rw (found, decide) at e)
  ]
    where
      not_ok : {f : Failure} → raise f ≡ ok x → ⊥
      not_ok q = cc

  -- A decision takes effect only on a stored action that was pending, and what it did is then a
  -- sequence of steps of the machine that leaves the returned row in the table.
  pub decide_needs_pending :
      (db : Db) (row : ActionRow) (after : Db)
      → decide env now d db ≡ ok (row, after)
      → (a : ActionRow) × (get_action d.action_id db.actions ≡ some a)
        × (a.state ≡ pending_approval)
        × Did env.hashing db row after
  decide_needs_pending db row after e =
      let (a, found, r) = decide-eq-ok db (row, after) e in
      let (pending, word) = decide_row-eq-ok a db (row, after) r in
      (a, found, pending, effect a found pending word)
    where
      pair :
          {p q : ActionRow × Db} → decide env now d db ≡ ok p → decide env now d db ≡ ok q → p ≡ q
      pair u v = cc

      effect :
          (a : ActionRow)
          → get_action d.action_id db.actions ≡ some a
          → a.state ≡ pending_approval
          → (str_eq d.decision "approve" ≡ true)
            ⊎ (str_eq d.decision "approve" ≡ false) × (str_eq d.decision "reject" ≡ true)
          → Did env.hashing db row after
      effect a found pending (inl w) =
          let done = decide_approves a db found pending w in
          subst (λ (p : ActionRow × Db). Did env.hashing db p.0 p.1) (pair done.returns e) done.did
      effect a found pending (inr (v, w)) =
          let done = decide_rejects a db found pending v w in
          subst (λ (p : ActionRow × Db). Did env.hashing db p.0 p.1) (pair done.0 e) done.1
