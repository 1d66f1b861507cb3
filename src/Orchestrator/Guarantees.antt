-- ===== src/Orchestrator/Guarantees.antt =====
-- Invariants of the machine: human decisions on actions of high blast radius, and the ledger.
use sentraxis.Prelude.{
  ℕ, Bool, true, false, ◌⊎◌, inl, inr, ◌≡◌, refl, sym, ◌∙◌, ap, ◌≢◌, none, List, [], ◌∷◌, ◌++◌, All,
  All-map, Bool-cases, arith,
}
use mathlib.Core.List.{append_assoc, append-nil}
use sentraxis.Audit.{Hashing, AuditLog, AuditLogRow, genesis, append_entry}
use sentraxis.Audit.Chain.{Chain, append_entry-Chain}
use sentraxis.Policy.{Blast, low, high, other}
use sentraxis.Orchestrator.Store.{
  ActionState, pending_approval, queued, executing, executed, failed, ActionRow, Db,
}
use sentraxis.Orchestrator.Transition.{
  is_allowed, state_eq, Extra, no_extra, with_result, with_decision, moved_row,
}
use sentraxis.Orchestrator.Machine.{Step, Steps, Steps-keeps, IsDecision}

-- The states in which an action has been let through to its effector.
abbrev pub is_released : ActionState → Bool
is_released queued = true
is_released executing = true
is_released executed = true
is_released failed = true
is_released _ = false

-- An action is not of high blast radius, or was not released, or names the person who decided it.
abbrev pub IsApproved : ActionRow → Type 0
IsApproved a = (a.blast_radius ≢ high) ⊎ ((is_released a.state ≡ false) ⊎ (a.decided_by ≢ none))

abbrev pub AllApproved : Db → Type 0
AllApproved db = All IsApproved db.actions

-- The same as an implication.
abbrev Answered : ActionRow → Type 0
Answered a = a.blast_radius ≡ high → is_released a.state ≡ true → a.decided_by ≢ none

abbrev AllAnswered : Db → Type 0
AllAnswered db = All Answered db.actions

IsApproved-Answered : (a : ActionRow) → IsApproved a → Answered a
IsApproved-Answered a (inl small) = λ big released. absurd (small big)
IsApproved-Answered a (inr (inl held)) = λ big released. cc
IsApproved-Answered a (inr (inr named)) = λ big released. named

high-cases : (b : Blast) → (b ≡ high) ⊎ (b ≢ high)
high-cases low = inr (λ e. cc)
high-cases high = inl refl
high-cases (other t) = inr (λ e. cc)

Answered-IsApproved : (a : ActionRow) → Answered a → IsApproved a
Answered-IsApproved a answered = elim (high-cases a.blast_radius) [
  | inr small ↦ inl small
  | inl big ↦ elim (Bool-cases (is_released a.state)) [
    | inl released ↦ inr (inr (answered big released))
    | inr held ↦ inr (inl held)
  ]
]

All-replace :
    (P : ActionRow → Type 0) (xs : List ActionRow) (a b : ActionRow) (ys : List ActionRow)
    → (P a → P b)
    → All P (xs ++ a ∷ ys)
    → All P (xs ++ b ∷ ys)
All-replace P [] a b ys f h = (f h.0, h.1)
All-replace P (x ∷ xs) a b ys f h = (h.0, All-replace P xs a b ys f h.1)

released_before :
    (s t : ActionState)
    → is_allowed s t ≡ true
    → is_released t ≡ true
    → (is_released s ≡ true) ⊎ ((s ≡ pending_approval) × (t ≡ queued))
unfolding is_allowed state_eq
released_before s t e r = ground arith

moved_row-Answered :
    (now : ℕ) (a : ActionRow) (t : ActionState) (x : Extra)
    → is_allowed a.state t ≡ true
    → (a.state ≡ pending_approval → t ≡ queued → IsDecision x)
    → Answered a
    → Answered (moved_row now a t x)
unfolding moved_row
moved_row-Answered now a t (with_decision by why) e guard old = λ big released. cc
moved_row-Answered now a t no_extra e guard old = λ big released.
    elim (released_before a.state t e released) [
      | inl before ↦ old big before
      | inr (p, q) ↦ absurd (guard p q)
    ]
moved_row-Answered now a t (with_result r) e guard old = λ big released.
    elim (released_before a.state t e released) [
      | inl before ↦ old big before
      | inr (p, q) ↦ absurd (guard p q)
    ]

module _ (h : Hashing) where
  Step-AllAnswered : (db db' : Db) → Step h db db' → AllAnswered db → AllAnswered db'
  Step-AllAnswered db db' (Step.moved now actor t x xs a ys split legal guard e) all = rw e (
      All-replace Answered xs a (moved_row now a t x) ys (moved_row-Answered now a t x legal guard)
        (rw split at all))
  Step-AllAnswered db db' (Step.touched xs a b ys split same e) all =
      rw e (All-replace Answered xs a b ys keep (rw split at all))
    where
      keep : Answered a → Answered b
      keep old = λ big released.
          rw (← same.decided_by) (old (same.blast_radius ∙ big) (rw same.state released))
  Step-AllAnswered db db' (Step.created now actor kind payload a gate e) all = rw e (new, all)
    where
      pending : a.blast_radius ≡ high → is_released a.state ≡ true → ⊥
      pending big released = let p = gate big in cc (ap is_released p)

      new : Answered a
      new = λ big released. absurd (pending big released)
  Step-AllAnswered db db' (Step.effected es e) all = rw e all
  Step-AllAnswered db db' (Step.advanced c e) all = rw e all

  pub Steps-AllApproved : {db db' : Db} → Steps h db db' → AllApproved db → AllApproved db'
  Steps-AllApproved {db} {db'} s all =
      All-map Answered-IsApproved db'.actions
        (Steps-keeps h AllAnswered Step-AllAnswered s (All-map IsApproved-Answered db.actions all))

  abbrev LedgerChain : Db → Type 0
  LedgerChain db = Chain h genesis db.audit.rows

  Step-LedgerChain : (db db' : Db) → Step h db db' → LedgerChain db → LedgerChain db'
  Step-LedgerChain db db' (Step.moved now actor t x xs a ys split legal guard e) c =
      rw e (append_entry-Chain h now db.audit actor _ _ _ _ c)
  Step-LedgerChain db db' (Step.touched xs a b ys split same e) c = rw e c
  Step-LedgerChain db db' (Step.created now actor kind payload a gate e) c =
      rw e (append_entry-Chain h now db.audit actor _ _ _ _ c)
  Step-LedgerChain db db' (Step.effected es e) c = rw e c
  Step-LedgerChain db db' (Step.advanced n e) c = rw e c

  pub Steps-LedgerChain : {db db' : Db} → Steps h db db' → LedgerChain db → LedgerChain db'
  Steps-LedgerChain s = Steps-keeps h LedgerChain Step-LedgerChain s

  -- The rows of the old ledger stand, unchanged, at the start of the new one.
  abbrev pub Extends : AuditLog → AuditLog → Type 0
  Extends old new = (more : List AuditLogRow) × (new.rows ≡ old.rows ++ more)

  Step-Extends :
      (old : AuditLog) (db db' : Db) → Step h db db' → Extends old db.audit → Extends old db'.audit
  unfolding append_entry
  Step-Extends old db db' (Step.moved now actor t x xs a ys split legal guard e) (more, p) =
      rw (e, p) (more ++ _ ∷ [], append_assoc old.rows more _)
  Step-Extends old db db' (Step.touched xs a b ys split same e) m = rw e m
  Step-Extends old db db' (Step.created now actor kind payload a gate e) (more, p) =
      rw (e, p) (more ++ _ ∷ [], append_assoc old.rows more _)
  Step-Extends old db db' (Step.effected es e) m = rw e m
  Step-Extends old db db' (Step.advanced c e) m = rw e m

  pub Steps-Extends : {db db' : Db} → Steps h db db' → Extends db.audit db'.audit
  Steps-Extends {db} s =
      Steps-keeps h (λ d. Extends db.audit d.audit) (Step-Extends db.audit) s
        ([], sym (append-nil _))
