-- ===== src/Correlate/Drain.antt =====
-- The loop of `main` in src/app/workers/correlator.py catches up.
use sentraxis.Prelude.{
  ℕ, suc, ◌<◌, ◌≡◌, ◌≢◌, ap, refl, ◌⊎◌, inl, inr, sym, subst, Bool, true, false, ◌&&◌, Option, List,
  [], ◌∷◌, String, Text, ltb, lt→ltb, keep, take, length, All, arith, Bool-cases,
}
use sentraxis.Correlate.Rules.{DetectionFact}
use sentraxis.Correlate.Covers.{In, All-at, All-every}
use sentraxis.Correlate.Facts.{CandidateRow, Projection}
use sentraxis.Correlate.Worker.{
  Db, TickResult, AgentLike, get_cursor, is_due, fetch, fact_of, max_id, process_rows, tick,
}
use sentraxis.Correlate.Linked.{Linked}
use sentraxis.Correlate.Pending.{
  IsOrdered, behind, keep-All, take-All, In-keep, keep-IsOrdered, take-or-after, length-behind_lt,
}
use sentraxis.Correlate.Ticked.{
  IsScored, process_rows-Processed, fetch-fresh, fetch-IsScored, max_id-All,
}

-- All detections lie a window before the time.
abbrev pub AllDue : ℕ → List CandidateRow → ℕ → Type 0
AllDue w rs now = All (λ (r : CandidateRow). is_due w false now r ≡ true) rs

keep-due :
    (w c now : ℕ) (rs : List CandidateRow)
    → AllDue w rs now
    → keep (λ (r : CandidateRow). ltb c r.id && is_due w false now r) rs ≡ behind c rs
keep-due w c now [] all = refl
keep-due w c now (r ∷ rs) (p, all) = elim (Bool-cases (ltb c r.id)) [
  | inl e ↦ rw (e, p, keep-due w c now rs all) refl
  | inr e ↦ rw (e, keep-due w c now rs all) refl
]

fetch-due :
    (w batch_size now : ℕ) (db : Db)
    → AllDue w db.detections now
    → fetch w batch_size false now db ≡ take batch_size (behind (get_cursor db) db.detections)
unfolding fetch
fetch-due w batch_size now db due =
    ap (take batch_size) (keep-due w (get_cursor db) now db.detections due)

pub fetch-In :
    (w batch_size now : ℕ) (force : Bool) (db : Db)
    → All (λ (r : CandidateRow). In r db.detections) (fetch w batch_size force now db)
unfolding fetch
fetch-In w batch_size now force db =
    take-All _ batch_size _ (keep-All _ _ db.detections (All-every _ db.detections (λ x h. h)))

module _ (title_of : ℕ → List String → Text) (narrative_of : ℕ → ℕ → ℕ → ℕ → Text)
    (isoformat : ℕ → Text) (dumps : Projection → Text) (G : Type 0)
    (agent : Option (AgentLike title_of narrative_of isoformat dumps G)) where
  -- What a tick keeps, however much it read.
  pub tick-keeps :
      (w batch_size : ℕ) (force : Bool) (now : ℕ) (db : Db) (g : G) (f : DetectionFact)
      → All IsScored db.detections
      → let after =
          (tick title_of narrative_of isoformat dumps G agent w batch_size force now db g).1.0 in
        (after.detections ≡ db.detections) × (Linked db f → Linked after f)
  unfolding tick process_rows
  tick-keeps w batch_size force now db g f scored = go (fetch w batch_size force now db) (
      fetch-IsScored title_of narrative_of isoformat dumps G agent w batch_size force now db scored)
    where
      go :
          (rows : List CandidateRow)
          → All IsScored rows
          → let after =
              (process_rows title_of narrative_of isoformat dumps G agent w rows db g).1.0 in
            (after.detections ≡ db.detections) × (Linked db f → Linked after f)
      go [] s = (refl, λ h. h)
      go (r ∷ rs) s =
          let (sum, same, cursor, keeps, spared, linked) =
            process_rows-Processed title_of narrative_of isoformat dumps G agent w r rs db g s in
          (same, keeps f)

  max_id-lt :
      (n : ℕ) (rs : List CandidateRow)
      → 0 < n
      → All (λ (r : CandidateRow). r.id < n) rs
      → max_id title_of narrative_of isoformat dumps G rs < n
  unfolding max_id
  max_id-lt n [] pos' all = pos'
  max_id-lt n (r ∷ rs) pos' (p, all) = omega (arith, max_id-lt n rs pos' all)

  -- A detection behind the cursor is linked, or stays behind it, with one detection less there.
  abbrev Advances : Db → CandidateRow → TickResult × (Db × G) → Type 0
  Advances db x ran =
      Linked ran.1.0 (fact_of x)
      ⊎ ((get_cursor ran.1.0 < x.id)
          × (length (behind (get_cursor ran.1.0) db.detections)
              < length (behind (get_cursor db) db.detections)))

  process_rows-Advances :
      (w : ℕ) (rows : List CandidateRow) (db : Db) (g : G) (x : CandidateRow)
      → All IsScored rows
      → All (λ (r : CandidateRow). In r db.detections) rows
      → All (λ (r : CandidateRow). get_cursor db < r.id) rows
      → rows ≢ []
      → get_cursor db < x.id
      → In x rows ⊎ All (λ (r : CandidateRow). r.id < x.id) rows
      → Advances db x (process_rows title_of narrative_of isoformat dumps G agent w rows db g)
  process_rows-Advances w [] db g x scored known fresh some' later place = absurd (some' refl)
  process_rows-Advances w (r ∷ rs) db g x scored known fresh some' later place =
      let rows = r ∷ rs in
      let (sum, same, cursor, keeps, spared, linked) =
        process_rows-Processed title_of narrative_of isoformat dumps G agent w r rs db g scored in
      let top = max_id-All title_of narrative_of isoformat dumps G agent rows in
      elim place [
        | inl h ↦ inl (All-at _ rows x linked h)
        | inr after ↦ inr (
          omega (arith, cursor, max_id-lt x.id rows (omega arith) after),
          length-behind_lt (get_cursor db) _ db.detections r known.0 fresh.0
              (omega (arith, cursor, top.0)),
        )
      ]

  take≢[] : (n : ℕ) (rs : List CandidateRow) (x : CandidateRow) → In x rs → take (suc n) rs ≢ []
  take≢[] n [] x h = elim h [ ]
  take≢[] n (r ∷ rs) x h = λ e. cc

  pub tick-Advances :
      (w batch_size now : ℕ) (db : Db) (g : G) (x : CandidateRow)
      → All IsScored db.detections
      → IsOrdered db.detections
      → AllDue w db.detections now
      → In x db.detections
      → get_cursor db < x.id
      → Advances db x
          (tick title_of narrative_of isoformat dumps G agent w (suc batch_size) false now db g)
  unfolding tick
  tick-Advances w batch_size now db g x scored ordered due h later =
      let ds = db.detections in
      let rows = fetch w (suc batch_size) false now db in
      let here = In-keep (λ r. ltb (get_cursor db) r.id) ds x h (lt→ltb _ _ later) in
      process_rows-Advances w rows db g x
        (fetch-IsScored title_of narrative_of isoformat dumps G agent w (suc batch_size) false now
          db scored)
        (fetch-In w (suc batch_size) now false db)
        (fetch-fresh title_of narrative_of isoformat dumps G agent w (suc batch_size) false now db)
        (subst (λ l. l ≢ []) (sym (fetch-due w (suc batch_size) now db due))
          (take≢[] batch_size _ x here))
        later
        (subst (λ l. In x l ⊎ All (λ (r : CandidateRow). r.id < x.id) l)
          (sym (fetch-due w (suc batch_size) now db due))
          (take-or-after (suc batch_size) _ x
            (keep-IsOrdered (λ r. ltb (get_cursor db) r.id) ds ordered) here))
