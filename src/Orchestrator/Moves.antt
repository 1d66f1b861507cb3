-- ===== src/Orchestrator/Moves.antt =====
-- `_transition` of src/app/workers/orchestrator.py, and plain writes of a row, as steps of the
-- machine.
use sentraxis.Prelude.{ℕ, ◌≡◌, sym, true, false, some, List, ◌∷◌, ◌++◌, Text, arith}
use sentraxis.Audit.{Hashing, append_entry}
use sentraxis.Orchestrator.Store.{
  ActionState, pending_approval, queued, ActionRow, Db, put_action, ok, raise, illegal_transition,
}
use sentraxis.Orchestrator.Transition.{
  is_allowed, Extra, moved_row, set_extra, event_type, transition_payload, transition,
}
use sentraxis.Orchestrator.Machine.{
  IsDecision, SameCore, Step, Steps, Step-Steps, Steps-trans, Located, put_action-split,
}

pub moved_row-id :
    (now : ℕ) (a : ActionRow) (t : ActionState) (x : Extra) → (moved_row now a t x).id ≡ a.id
unfolding moved_row set_extra
moved_row-id now a t x = ground arith

pub moved_row-state :
    (now : ℕ) (a : ActionRow) (t : ActionState) (x : Extra) → (moved_row now a t x).state ≡ t
unfolding moved_row set_extra
moved_row-state now a t x = ground arith

pub Located-put :
    (a b : ActionRow) (rows : List ActionRow)
    → a.id ≡ b.id
    → (l : Located a rows)
    → (put_action b rows ≡ l.before ++ b ∷ l.after) × Located b (put_action b rows)
Located-put a b rows e l =
    let p = rw (sym l.split) at (put_action-split a b l.before l.after e l.first) in
    (p, record { before = l.before; after = l.after; split = p; first = rw e at l.first })

module _ (h : Hashing) where
  -- What a successful method did: steps of the machine, with the row in its place.
  abbrev pub Did : Db → ActionRow → Db → Type 0
  Did db a db' = Steps h db db' × Located a db'.actions

  abbrev pub moved_db : ℕ → Db → ActionRow → ActionState → Text → Extra → Db
  moved_db now db a t actor x = record db {
    actions = put_action (moved_row now a t x) db.actions;
    audit =
        append_entry h now db.audit actor (event_type t) (transition_payload a.state t x)
          (some "action") (some a.id);
  }

  pub transition-eq-ok :
      (now : ℕ) (db : Db) (a : ActionRow) (t : ActionState) (actor : Text) (x : Extra)
      → is_allowed a.state t ≡ true
      → transition h now db a t actor x ≡ ok (moved_row now a t x, moved_db now db a t actor x)
  unfolding transition
  transition-eq-ok now db a t actor x legal = rw legal

  pub transition-eq-raise :
      (now : ℕ) (db : Db) (a : ActionRow) (t : ActionState) (actor : Text) (x : Extra)
      → is_allowed a.state t ≡ false
      → transition h now db a t actor x ≡ raise (illegal_transition a.state t)
  unfolding transition
  transition-eq-raise now db a t actor x illegal = rw illegal

  pub moved-Did :
      (now : ℕ) (db : Db) (a : ActionRow) (t : ActionState) (actor : Text) (x : Extra)
      → Located a db.actions
      → is_allowed a.state t ≡ true
      → (a.state ≡ pending_approval → t ≡ queued → IsDecision x)
      → Did db (moved_row now a t x) (moved_db now db a t actor x)
  moved-Did now db a t actor x l legal guard =
      let (p, l') =
        Located-put a (moved_row now a t x) db.actions (sym (moved_row-id now a t x)) l in
      (Step-Steps h (Step.moved now actor t x l.before a l.after l.split legal guard (cc p)), l')

  pub touched-Did :
      (db : Db) (a b : ActionRow)
      → Located a db.actions
      → SameCore a b
      → Did db b (record db { actions = put_action b db.actions })
  touched-Did db a b l same =
      let (p, l') = Located-put a b db.actions same.id l in
      (Step-Steps h (Step.touched l.before a b l.after l.split same (cc p)), l')

  pub Did-trans : {a b c : Db} {r s : ActionRow} → Did a r b → Did b s c → Did a s c
  Did-trans d e = (Steps-trans h d.0 e.0, e.1)
