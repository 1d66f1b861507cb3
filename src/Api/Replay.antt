-- ===== src/Api/Replay.antt =====
-- Idempotency keys of src/app/api/actions.py.
use sentraxis.Prelude.{
  ℕ, ◌≡◌, refl, ap, subst, sym, ◌∙◌, Bool, true, false, Option, some, List, [], ◌∷◌, ◌++◌, Text,
  find_first, arith, Bool-cases, Option-cases, inl, inr,
}
use sentraxis.Orchestrator.Store.{
  ActionRow, Db, get_action, put_action, pending_approval, Result, ok, raise,
}
use sentraxis.Orchestrator.Transition.{state_eq}
use sentraxis.Orchestrator.Tick.{Env}
use sentraxis.Orchestrator.Decide.{Decision, decide}
use sentraxis.Orchestrator.Machine.{Located}
use sentraxis.Orchestrator.Moves.{Located-put}
use sentraxis.Orchestrator.Outcome.{decide_needs_pending}
use sentraxis.Api.Auth.{HttpError}
use sentraxis.Api.Actions.{
  Reply, decided, failed_with, is_given, has_key, find_replay, with_key, settle, decide_fresh,
  decide_request,
}

find_first-split :
    (p : ActionRow → Bool) (xs : List ActionRow) (a : ActionRow) (ys : List ActionRow)
    → p a ≡ true
    → (b : ActionRow) × (find_first p (xs ++ a ∷ ys) ≡ some b) × (p b ≡ true)
find_first-split p [] a ys h = (a, rw h, h)
find_first-split p (x ∷ xs) a ys h = elim (Bool-cases (p x)) [
  | inl hit ↦ (x, rw hit, hit)
  | inr miss ↦ rw miss (find_first-split p xs a ys h)
]

with_key-id : (key : Option Text) (a : ActionRow) → (with_key key a).id ≡ a.id
unfolding with_key
with_key-id key a = ground arith

module _ (env : Env) where
  -- What a fresh decision stored: the answered row stands in the table after it.
  settle-Located :
      (now : ℕ) (d : Decision) (key : Option Text) (db after : Db) (row : ActionRow)
      (r : Result (ActionRow × Db))
      → decide env now d db ≡ r
      → settle env key db r ≡ (decided row false, after)
      → Located row after.actions
  unfolding settle
  settle-Located now d key db after row (raise e) p q = absurd (clash q)
    where
      clash :
          {x : HttpError} → ◌≡◌ {A = Reply × Db} (failed_with x, db) (decided row false, after) → ⊥
      clash z = cc
  settle-Located now d key db after row (ok (row0, after0)) p q =
      let (_, _, _, did) = decide_needs_pending env now d db row0 after0 p in
      let (_, l) =
        Located-put row0 (with_key key row0) after0.actions (sym (with_key-id key row0)) did.1 in
      subst (λ rows. Located row rows) (ap (λ (z : Reply × Db). z.1.actions) q)
        (subst (λ x. Located x (put_action (with_key key row0) after0.actions)) (same q) l)
    where
      same :
          ◌≡◌ {A = Reply × Db}
            (
              decided (with_key key row0) false,
              record after0 { actions = put_action (with_key key row0) after0.actions },
            )
            (decided row false, after)
          → with_key key row0 ≡ row
      same z = cc

  fresh-Located :
      (now : ℕ) (d : Decision) (key : Option Text) (db after : Db) (row : ActionRow)
      → decide_request env now d key db ≡ (decided row false, after)
      → Located row after.actions
  unfolding decide_request decide_fresh
  fresh-Located now d key db after row e = elim (Option-cases (get_action d.action_id db.actions)) [
    | inl absent ↦ absurd (clash (rw (absent, decide_request) at e))
    | inr (a, found) ↦ elim (Option-cases (find_replay key db.actions)) [
      | inr (old, again) ↦ absurd (not_replayed (rw (found, again, decide_request) at e))
      | inl new ↦ elim (Bool-cases (state_eq a.state pending_approval)) [
        | inl open' ↦
            settle-Located now d key db after row _ refl
              (rw (found, new, open', decide_request) at e)
        | inr shut ↦ absurd (clash (rw (found, new, shut, decide_request) at e))
      ]
    ]
  ]
    where
      clash :
          {x : HttpError} {b : Db}
          → ◌≡◌ {A = Reply × Db} (failed_with x, b) (decided row false, after)
          → ⊥
      clash z = cc

      not_replayed :
          {x : ActionRow} {b : Db}
          → ◌≡◌ {A = Reply × Db} (decided x true, b) (decided row false, after)
          → ⊥
      not_replayed z = cc

  replays :
      (key : Option Text) (db : Db) (b : ActionRow)
      → is_given key ≡ true
      → find_first (has_key key) db.actions ≡ some b
      → find_replay key db.actions ≡ some b
  unfolding find_replay
  replays key db b given first = rw given first

  -- After a decision that was answered with a row carrying the request's key, every request with that
  -- key for a stored action is answered with a row that carries the key, marked as replayed, whatever
  -- the decision and the action, and changes nothing.
  pub decide_request_replays :
      (now later : ℕ) (d again : Decision) (key : Option Text) (db after : Db) (row a : ActionRow)
      → decide_request env now d key db ≡ (decided row false, after)
      → is_given key ≡ true
      → has_key key row ≡ true
      → get_action again.action_id after.actions ≡ some a
      → (b : ActionRow) × (decide_request env later again key after ≡ (decided b true, after))
        × (has_key key b ≡ true)
  unfolding decide_request
  decide_request_replays now later d again key db after row a e given keyed found =
      let l = fresh-Located now d key db after row e in
      let (b, hit, has) = find_first-split (has_key key) l.before row l.after keyed in
      let first : find_first (has_key key) after.actions ≡ some b =
        ap (λ rows. find_first (has_key key) rows) l.split ∙ hit in
      (b, rw (found, replays key after b given first, decide_request), has)
