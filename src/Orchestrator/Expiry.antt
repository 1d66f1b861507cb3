-- ===== src/Orchestrator/Expiry.antt =====
-- `_expire_pending_approvals` of src/app/workers/orchestrator.py against a plain description of
-- it.
use sentraxis.Prelude.{
  ℕ, ◌+◌, ◌≡◌, refl, true, false, some, List, [], ◌∷◌, map, keep, length, length-append, ◌&&◌, All,
  if◌then◌else◌, arith,
}
use sentraxis.Audit.{Hashing, AuditLog, append_entry}
use sentraxis.Orchestrator.Store.{expired, ActionRow, Db}
use sentraxis.Orchestrator.Transition.{
  is_allowed, state_eq, no_extra, moved_row, event_type, transition_payload,
}
use sentraxis.Orchestrator.Execute.{system_actor}
use sentraxis.Orchestrator.Tick.{
  Env, is_stale, expire_rows, expire_pending_approvals, expiry_cutoff,
}

stale_allowed :
    (cutoff : ℕ) (a : ActionRow) → is_stale cutoff a ≡ true → is_allowed a.state expired ≡ true
unfolding is_stale is_allowed state_eq
stale_allowed cutoff a e = ground arith

stale_test :
    (cutoff : ℕ) (a : ActionRow)
    → (is_stale cutoff a && is_allowed a.state expired) ≡ is_stale cutoff a
stale_test cutoff a = ground (arith, stale_allowed cutoff a)

-- What expiry makes of one row.
abbrev pub expire_row : ℕ → ℕ → ActionRow → ActionRow
expire_row now cutoff a = if is_stale cutoff a then moved_row now a expired no_extra else a

not_stale : (now cutoff : ℕ) (a : ActionRow) → is_stale cutoff (expire_row now cutoff a) ≡ false
unfolding is_stale state_eq moved_row
not_stale now cutoff a = ground arith

module _ (h : Hashing) (now cutoff : ℕ) where
  expire_rows-map :
      (rows : List ActionRow) (log : AuditLog)
      → (expire_rows h now cutoff rows log).0 ≡ map (expire_row now cutoff) rows
  unfolding expire_rows
  expire_rows-map [] log = refl
  expire_rows-map (a ∷ rows) log = ground (arith, expire_rows-map rows log, stale_test cutoff a)

  entry_counts :
      (a : ActionRow) (log : AuditLog)
      → length
          (append_entry h now log system_actor
            (event_type expired)
            (transition_payload a.state expired no_extra)
            (some "action")
            (some a.id)).rows
        ≡ length log.rows + 1
  unfolding append_entry
  entry_counts a log = length-append log.rows _

  expire_rows-length :
      (rows : List ActionRow) (log : AuditLog)
      → length (expire_rows h now cutoff rows log).1.rows
        ≡ length log.rows + length (keep (is_stale cutoff) rows)
  unfolding expire_rows
  expire_rows-length [] log = omega arith
  expire_rows-length (a ∷ rows) log = ground (
    arith,
    expire_rows-length rows log,
    stale_test cutoff a,
    entry_counts a (expire_rows h now cutoff rows log).1,
  )

All-not_stale :
    (now cutoff : ℕ) (rows : List ActionRow)
    → All (λ a. is_stale cutoff a ≡ false) (map (expire_row now cutoff) rows)
All-not_stale now cutoff [] = tt
All-not_stale now cutoff (a ∷ rows) = (not_stale now cutoff a, All-not_stale now cutoff rows)

module _ (env : Env) where
  -- Expiry moves every pending action created before the cutoff to the state expired, and changes
  -- no other action; it adds one ledger entry for each action it moves, and afterwards no pending
  -- action is older than the cutoff.
  pub expire_pending_approvals_lem :
      (now : ℕ) (db : Db)
      → let cutoff = expiry_cutoff env.settings now in
        let after = expire_pending_approvals env now db in
        (after.actions ≡ map (expire_row now cutoff) db.actions)
        × (length after.audit.rows
            ≡ length db.audit.rows + length (keep (is_stale cutoff) db.actions))
        × All (λ a. is_stale cutoff a ≡ false) after.actions
  unfolding expire_pending_approvals
  expire_pending_approvals_lem now db =
      let cutoff = expiry_cutoff env.settings now in
      let e = expire_rows-map env.hashing now cutoff db.actions db.audit in
      (
        e,
        expire_rows-length env.hashing now cutoff db.actions db.audit,
        rw e (All-not_stale now cutoff db.actions),
      )
