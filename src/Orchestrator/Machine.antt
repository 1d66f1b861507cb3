-- ===== src/Orchestrator/Machine.antt =====
-- An abstract machine for the orchestrator: one rule for each kind of change that
-- src/app/workers/orchestrator.py and src/app/api/actions.py make to the database.
use sentraxis.Prelude.{
  Bool-cases, ap, ℕ, ◌+◌, ◌≡◌, ◌≢◌, inl, inr, true, false, Option, some, List, [], ◌∷◌, ◌++◌, Text,
  All, ◌==◌, ==_iff, arith,
}
use sentraxis.Audit.{Hashing, Fields, append_entry}
use sentraxis.Policy.{high}
use sentraxis.Orchestrator.Store.{
  ActionState, pending_approval, queued, EntityRow, ActionRow, Db, get_action, put_action,
}
use sentraxis.Orchestrator.Transition.{
  is_allowed, Extra, with_decision, moved_row, event_type, transition_payload,
}

-- The extra of a human decision.
abbrev pub IsDecision : Extra → Type 0
IsDecision (with_decision by why) = Unit
IsDecision _ = ⊥

-- The columns that the rules below speak of.
pub record SameCore (a b : ActionRow) : Type 0 where
  pub id : a.id ≡ b.id
  pub state : a.state ≡ b.state
  pub blast_radius : a.blast_radius ≡ b.blast_radius
  pub decided_by : a.decided_by ≡ b.decided_by
  pub created_at : a.created_at ≡ b.created_at

module _ (h : Hashing) where
  pub data Step (db : Db) (db' : Db) : Type 0 where
    -- A legal transition with its ledger entry; out of approval to the queue only by a decision.
    moved :
        (now : ℕ) (actor : Text) (target : ActionState) (extra : Extra) (xs : List ActionRow)
        (a : ActionRow) (ys : List ActionRow)
        → db.actions ≡ xs ++ a ∷ ys
        → is_allowed a.state target ≡ true
        → (a.state ≡ pending_approval → target ≡ queued → IsDecision extra)
        → db' ≡ record db {
          actions = xs ++ moved_row now a target extra ∷ ys;
          audit =
              append_entry h now db.audit actor
                (event_type target)
                (transition_payload a.state target extra)
                (some "action")
                (some a.id);
        }
        → Step db db'
    -- A write of other columns of an action.
    touched :
        (xs : List ActionRow) (a b : ActionRow) (ys : List ActionRow)
        → db.actions ≡ xs ++ a ∷ ys
        → SameCore a b
        → db' ≡ record db { actions = xs ++ b ∷ ys }
        → Step db db'
    -- A new action with its ledger entry; of high blast radius only in the state pending_approval.
    created :
        (now : ℕ) (actor kind : Text) (payload : Fields) (a : ActionRow)
        → (a.blast_radius ≡ high → a.state ≡ pending_approval)
        → db' ≡ record db {
          actions = a ∷ db.actions;
          next_action_id = db.next_action_id + 1;
          audit = append_entry h now db.audit actor kind payload (some "action") (some a.id);
        }
        → Step db db'
    -- An effector's writes.
    effected : (es : List EntityRow) → db' ≡ record db { entities = es } → Step db db'
    -- The worker's cursor.
    advanced : (c : Option ℕ) → db' ≡ record db { cursor = c } → Step db db'

  pub data Steps (db : Db) : Db → Type 0 where
    here : Steps db db
    next : {d e : Db} → Steps db d → Step d e → Steps db e

  pub Steps-trans : {a b c : Db} → Steps a b → Steps b c → Steps a c
  Steps-trans s here = s
  Steps-trans s (next t u) = next (Steps-trans s t) u

  pub Step-Steps : {a b : Db} → Step a b → Steps a b
  Step-Steps s = next here s

  -- The invariant rule.
  pub Steps-keeps :
      (P : Db → Type 0) → ((a b : Db) → Step a b → P a → P b) → {a b : Db} → Steps a b → P a → P b
  Steps-keeps P keep here p = p
  Steps-keeps P keep (next {d} {e} s t) p = keep d e t (Steps-keeps P keep s p)

-- The row stands in the table, and no earlier row has its id.
pub record Located (a : ActionRow) (rows : List ActionRow) : Type 0 where
  pub before : List ActionRow
  pub after : List ActionRow
  pub split : rows ≡ before ++ a ∷ after
  pub first : All (λ x. x.id ≢ a.id) before

pub get_action-id :
    (k : ℕ) (rows : List ActionRow) (a : ActionRow) → get_action k rows ≡ some a → a.id ≡ k
unfolding get_action
get_action-id k [] a e = cc
get_action-id k (x ∷ rows) a e = elim (Bool-cases (x.id == k)) [
  | inl hit ↦ some_id (rw hit at e) ((==_iff x.id k).0 hit)
  | inr miss ↦ get_action-id k rows a (rw miss at e)
]
  where
    some_id : some x ≡ some a → x.id ≡ k → a.id ≡ k
    some_id p q = cc

pub get_action-Located :
    (k : ℕ) (rows : List ActionRow) (a : ActionRow) → get_action k rows ≡ some a → Located a rows
unfolding get_action
get_action-Located k [] a e = cc
get_action-Located k (x ∷ rows) a e = elim (Bool-cases (x.id == k)) [
  | inl hit ↦ record { before = []; after = rows; split = same (rw hit at e); first = tt }
  | inr miss ↦
      let l = get_action-Located k rows a (rw miss at e) in
      record {
        before = x ∷ l.before;
        after = l.after;
        split = ap (λ t. x ∷ t) l.split;
        first = (other (get_action-id k rows a (rw miss at e)) miss, l.first);
      }
]
  where
    same : some x ≡ some a → x ∷ rows ≡ a ∷ rows
    same p = cc

    other : a.id ≡ k → (x.id == k) ≡ false → x.id ≢ a.id
    other p q r = ground arith

pub put_action-split :
    (a b : ActionRow) (xs ys : List ActionRow)
    → a.id ≡ b.id
    → All (λ x. x.id ≢ a.id) xs
    → put_action b (xs ++ a ∷ ys) ≡ xs ++ b ∷ ys
unfolding put_action
put_action-split a b [] ys e h = ground arith
put_action-split a b (x ∷ xs) ys e h = ground (arith, put_action-split a b xs ys)
