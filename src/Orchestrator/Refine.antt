-- ===== src/Orchestrator/Refine.antt =====
-- `tick` of src/app/workers/orchestrator.py as a sequence of steps of the machine.
use sentraxis.Prelude.{
  ℕ, ◌≡◌, refl, ◌∙◌, subst, ◌⊎◌, inl, inr, Bool, true, false, List, [], ◌∷◌, ◌++◌, arith,
  Bool-cases, ◌&&◌, all, All, All-map, keep,
}
use mathlib.Core.List.{append_assoc}
use sentraxis.Audit.{Hashing}
use sentraxis.Policy.{PlaybookDef, IncidentContext, ActionSpec, spec_for}
use sentraxis.Policy.Select.{matches, specs_of, evaluate_response-eq-specs_of}
use sentraxis.Orchestrator.Store.{
  expired, IncidentRow, ActionRow, Db, check_violation, Result, ok, raise, ◌>>=◌,
}
use sentraxis.Orchestrator.Transition.{is_allowed, no_extra}
use sentraxis.Orchestrator.Tick.{
  Env, Counts, is_stale, expire_rows, expire_pending_approvals, expiry_cutoff, evaluate,
  first_state, new_action, add_action, create_action, is_low, is_blast_radius, load_playbooks,
  run_low, dispatch, dispatch_all, already_handled, handle, handle_all, set_cursor, tick,
}
use sentraxis.Orchestrator.Execute.{system_actor}
use sentraxis.Orchestrator.Machine.{Step, Steps, Step-Steps, Steps-trans}
use sentraxis.Orchestrator.Moves.{Did}
use sentraxis.Orchestrator.Running.{execute-Attempted}

-- The method returns, and what it did to the database is a sequence of steps.
abbrev pub Runs {ℓ} : {A : Type ℓ} → Hashing → Db → Result (A × Db) → Type ℓ
Runs {A} h db r = (x : A) × (after : Db) × (r ≡ ok (x, after)) × Steps h db after

module _ (h : Hashing) where
  Runs-ok {ℓ} : {A : Type ℓ} (db : Db) (x : A) → Runs h db (ok (x, db))
  Runs-ok db x = (x, db, refl, Steps.here)

  Runs-after {ℓ} :
      {A : Type ℓ} {a b : Db} {r : Result (A × Db)} → Steps h a b → Runs h b r → Runs h a r
  Runs-after s (x, after, e, t) = (x, after, e, Steps-trans h s t)

  Runs-bind {ℓ κ} :
      {A : Type ℓ} {B : Type κ} (db : Db) (r : Result (A × Db)) (f : A × Db → Result (B × Db))
      → Runs h db r
      → ((x : A) (d : Db) → Runs h d (f (x, d)))
      → Runs h db (r >>= f)
  Runs-bind db r f (x, after, e, s) g = rw e (Runs-after s (g x after))

  expire_rows-Steps :
      (now cutoff : ℕ) (db : Db) (xs rows : List ActionRow)
      → db.actions ≡ xs ++ rows
      → Steps h db (record db {
        actions = xs ++ (expire_rows h now cutoff rows db.audit).0;
        audit = (expire_rows h now cutoff rows db.audit).1;
      })
  unfolding expire_rows
  expire_rows-Steps now cutoff db xs [] e =
      subst (λ t. Steps h db (record db { actions = t })) e Steps.here
  expire_rows-Steps now cutoff db xs (a ∷ rows) e =
      let ih =
        expire_rows-Steps now cutoff db (xs ++ a ∷ []) rows
          (rw (append_assoc xs (a ∷ []) rows) e) in
      elim (Bool-cases (is_stale cutoff a && is_allowed a.state expired)) [
        | inl stale ↦ rw stale (
            Steps.next ih (
              Step.moved now system_actor expired no_extra xs a
                (expire_rows h now cutoff rows db.audit).0 (append_assoc xs (a ∷ []) _)
                (right stale) (λ _ q. cc) refl))
        | inr fresh ↦
            rw fresh
              (rw (append_assoc xs (a ∷ []) (expire_rows h now cutoff rows db.audit).0) at ih)
      ]
    where
      right :
          (is_stale cutoff a && is_allowed a.state expired) ≡ true
          → is_allowed a.state expired ≡ true
      right p = ground arith

module _ (env : Env) where
  open env use {hashing as h}

  create-Step :
      (now : ℕ) (db : Db) (i : IncidentRow) (spec : ActionSpec)
      → Did h db (add_action env now db i spec).0 (add_action env now db i spec).1
  unfolding add_action new_action first_state
  create-Step now db i spec = (
    Step-Steps h
        (Step.created now system_actor _ _ (new_action env now db i spec) (λ e. rw e) refl),
    record { before = []; after = db.actions; split = refl; first = tt },
  )

  run_low-Runs :
      (now : ℕ) (i : IncidentRow) (spec : ActionSpec) (db : Db)
      → let made = add_action env now db i spec in Runs h db (run_low env now spec made.0 made.1)
  unfolding run_low
  run_low-Runs now i spec db =
      let (action, db') = add_action env now db i spec in
      let made = create-Step now db i spec in
      elim (Bool-cases (is_low env spec.blast_radius)) [
        | inr other_blast ↦ rw other_blast (false, db', refl, made.0)
        | inl is_low_blast ↦
            let ran = execute-Attempted h now env.effectors db' action made.1 in
            rw (is_low_blast, ran.returns)
              (ran.done, ran.after, refl, Steps-trans h made.0 ran.did.0)
      ]

  -- Every enabled playbook has a blast radius that the table of actions admits.
  abbrev pub all_admitted : Db → Bool
  all_admitted db = all (λ pb. is_blast_radius env pb.blast_radius) (load_playbooks db.playbooks)

  -- The action passes the constraint, or the playbooks are not all admitted.
  abbrev Explained : Bool → ActionSpec → Type 0
  Explained b spec = is_blast_radius env spec.blast_radius ≡ false → b ≡ false

  abbrev Ends {ℓ} : {A : Type ℓ} → Bool → Db → Result (A × Db) → Type ℓ
  Ends b db r = Runs h db r ⊎ ((r ≡ raise check_violation) × (b ≡ false))

  Ends-after {ℓ} :
      {A : Type ℓ} (b : Bool) {c d : Db} {r : Result (A × Db)}
      → Steps h c d
      → Ends b d r
      → Ends b c r
  Ends-after b s (inl ran) = inl (Runs-after h s ran)
  Ends-after b s (inr failed) = inr failed

  Ends-bind {ℓ κ} :
      {A : Type ℓ} {B : Type κ} (b : Bool) (db : Db) (r : Result (A × Db))
      (f : A × Db → Result (B × Db))
      → Ends b db r
      → ((x : A) (d : Db) → Steps h db d → Ends b d (f (x, d)))
      → Ends b db (r >>= f)
  Ends-bind b db r f (inr (e, q)) g = rw e (inr (refl, q))
  Ends-bind b db r f (inl (x, after, e, s)) g = rw e (Ends-after b s (g x after s))

  Step-playbooks : {a b : Db} → Step h a b → a.playbooks ≡ b.playbooks
  Step-playbooks (Step.moved now actor target extra xs a ys e l d q) = rw q refl
  Step-playbooks (Step.touched xs a b ys e c q) = rw q refl
  Step-playbooks (Step.created now actor kind payload a c q) = rw q refl
  Step-playbooks (Step.effected es q) = rw q refl
  Step-playbooks (Step.advanced c q) = rw q refl

  Steps-playbooks : {a b : Db} → Steps h a b → a.playbooks ≡ b.playbooks
  Steps-playbooks Steps.here = refl
  Steps-playbooks (Steps.next s t) = Steps-playbooks s ∙ Step-playbooks t

  Steps-admitted : (b : Bool) {d e : Db} → Steps h d e → all_admitted d ≡ b → all_admitted e ≡ b
  Steps-admitted b s q =
      subst (λ ps. all (λ pb. is_blast_radius env pb.blast_radius) (load_playbooks ps) ≡ b)
        (Steps-playbooks s) q

  specs_of-Explained :
      (ctx : IncidentContext) (floor : ℕ) (pbs : List PlaybookDef)
      → All
          (Explained (all (λ pb. is_blast_radius env pb.blast_radius) pbs))
          (specs_of env.formats ctx floor (keep (matches env.formats ctx floor) pbs))
  unfolding spec_for
  specs_of-Explained ctx floor [] = tt
  specs_of-Explained ctx floor (pb ∷ pbs) =
      let rest =
        All-map (λ s q h. and_right (is_blast_radius env pb.blast_radius) (q h)) _
          (specs_of-Explained ctx floor pbs) in
      elim (Bool-cases (matches env.formats ctx floor pb)) [
        | inl e ↦ rw e (λ h. rw h refl, rest)
        | inr e ↦ rw e rest
      ]
    where
      and_right : (a : Bool) {b : Bool} → b ≡ false → (a && b) ≡ false
      and_right a {b = b} e = ground arith

  evaluate-Explained :
      (i : IncidentRow) (db : Db) → All (Explained (all_admitted db)) (evaluate env db i)
  unfolding evaluate
  evaluate-Explained i db =
      rw
        (evaluate_response-eq-specs_of env.formats _ (load_playbooks db.playbooks)
          env.settings.orch_min_risk)
        (specs_of-Explained _ env.settings.orch_min_risk (load_playbooks db.playbooks))

  dispatch-Ends :
      (b : Bool) (now : ℕ) (i : IncidentRow) (spec : ActionSpec) (db : Db)
      → Explained b spec
      → Ends b db (dispatch env now i spec db)
  unfolding dispatch create_action
  dispatch-Ends b now i spec db why = elim (Bool-cases (is_blast_radius env spec.blast_radius)) [
    | inl fine ↦ rw fine (inl (run_low-Runs now i spec db))
    | inr bad ↦ rw bad (inr (refl, why bad))
  ]

  dispatch_all-Ends :
      (b : Bool) (now : ℕ) (i : IncidentRow) (specs : List ActionSpec) (counts : Counts env)
      (db : Db)
      → All (Explained b) specs
      → Ends b db (dispatch_all env now i specs counts db)
  unfolding dispatch_all
  dispatch_all-Ends b now i [] counts db why = inl (Runs-ok h db counts)
  dispatch_all-Ends b now i (spec ∷ specs) (created, done) db (why, whys) =
      Ends-bind b db (dispatch env now i spec db) _ (dispatch-Ends b now i spec db why)
        (λ ran d s. dispatch_all-Ends b now i specs _ d whys)

  handle-Ends :
      (b : Bool) (now : ℕ) (i : IncidentRow) (counts : Counts env) (db : Db)
      → all_admitted db ≡ b
      → Ends b db (handle env now i counts db)
  unfolding handle
  handle-Ends b now i counts db q = elim (Bool-cases (already_handled env db i.id)) [
    | inl old ↦ rw old (inl (Runs-ok h db counts))
    | inr new ↦ rw new (
        dispatch_all-Ends b now i (evaluate env db i) counts db
          (subst (λ c. All (Explained c) (evaluate env db i)) q (evaluate-Explained i db)))
  ]

  handle_all-Ends :
      (b : Bool) (now : ℕ) (rows : List IncidentRow) (counts : Counts env) (db : Db)
      → all_admitted db ≡ b
      → Ends b db (handle_all env now rows counts db)
  unfolding handle_all
  handle_all-Ends b now [] counts db q = inl (Runs-ok h db counts)
  handle_all-Ends b now (i ∷ rows) counts db q =
      Ends-bind b db (handle env now i counts db) _ (handle-Ends b now i counts db q)
        (λ c d s. handle_all-Ends b now rows c d (Steps-admitted b s q))

  expire-Steps : (now : ℕ) (db : Db) → Steps h db (expire_pending_approvals env now db)
  unfolding expire_pending_approvals
  expire-Steps now db =
      expire_rows-Steps h now (expiry_cutoff env.settings now) db [] db.actions refl

  -- From any database one tick either returns, and what it does is a sequence of steps of the machine,
  -- or it raises a constraint's violation, and then an enabled playbook has a blast radius that is
  -- neither low nor high.
  pub tick-Runs :
      (now : ℕ) (db : Db)
      → Runs h db (tick env now db)
        ⊎ ((tick env now db ≡ raise check_violation) × (all_admitted db ≡ false))
  unfolding tick set_cursor
  tick-Runs now db =
      let first = expire-Steps now db in
      let all' = all_admitted db in
      Ends-after all' first (
        Ends-bind all' (expire_pending_approvals env now db) _ _
          (handle_all-Ends all' now _ (0, 0) _ (Steps-admitted all' first refl))
          (λ counts d s. inl (_, _, refl, Step-Steps h (Step.advanced _ refl))))
