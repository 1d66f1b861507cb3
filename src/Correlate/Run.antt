-- ===== src/Correlate/Run.antt =====
-- Runs of the loop of `main` in src/app/workers/correlator.py: it catches up with what is due, and
-- what it has passed over it does not return to.
use sentraxis.Prelude.{
  ℕ, suc, ◌≤◌, ◌<◌, ◌≡◌, ◌≢◌, refl, ◌∙◌, inl, inr, sym, subst, Bool, true, false, ◌&&◌, Option,
  List, [], ◌∷◌, String, Text, ltb, lt→ltb, length, All, All-map, arith,
}
use sentraxis.Correlate.Rules.{DetectionFact}
use sentraxis.Correlate.Covers.{In, All-at, All-every}
use sentraxis.Correlate.Facts.{CandidateRow, Projection}
use sentraxis.Correlate.Worker.{
  Db, TickResult, AgentLike, get_cursor, is_due, fetch, fact_of, process_rows, tick, run,
}
use sentraxis.Correlate.Linked.{Linked, Unlinked}
use sentraxis.Correlate.Pending.{IsOrdered, behind, In-keep, take-All, keep-test}
use sentraxis.Correlate.Ticked.{
  IsScored, process_rows-Processed, Accounted, tick-Linked, fetch-fresh, fetch-IsScored,
}
use sentraxis.Correlate.Drain.{AllDue, tick-keeps, tick-Advances, fetch-In}

-- Ids are unique.
same_row :
    (rs : List CandidateRow) (x y : CandidateRow)
    → IsOrdered rs
    → In x rs
    → In y rs
    → x.id ≡ y.id
    → x ≡ y
same_row [] x y o hx hy e = elim hx [ ]
same_row (r ∷ rs) x y (first, o) (inl p) (inl q) e = sym p ∙ q
same_row (r ∷ rs) x y (first, o) (inl p) (inr hy) e =
    let lt = All-at (λ (s : CandidateRow). r.id < s.id) rs y first hy in
    let same = subst (λ (s : CandidateRow). r.id ≡ s.id) p refl in
    absurd (omega (arith, lt, same, e))
same_row (r ∷ rs) x y (first, o) (inr hx) (inl q) e =
    let lt = All-at (λ (s : CandidateRow). r.id < s.id) rs x first hx in
    let same = subst (λ (s : CandidateRow). r.id ≡ s.id) q refl in
    absurd (omega (arith, lt, same, e))
same_row (r ∷ rs) x y (first, o) (inr hx) (inr hy) e = same_row rs x y o hx hy e

not_empty : (x : CandidateRow) (rs : List CandidateRow) → In x rs → length rs ≤ 0 → ⊥
not_empty x [] h le = elim h [ ]
not_empty x (r ∷ rs) h le = omega arith

fetch-AllDue :
    (w batch_size now : ℕ) (db : Db)
    → All (λ (r : CandidateRow). is_due w false now r ≡ true) (fetch w batch_size false now db)
unfolding fetch
fetch-AllDue w batch_size now db = take-All _ batch_size _ (
    All-map (λ (r : CandidateRow) e. right (ltb (get_cursor db) r.id) _ e) _
      (keep-test _ db.detections))
  where
    right : (a b : Bool) → (a && b) ≡ true → b ≡ true
    right a b e = ground arith

module _ (title_of : ℕ → List String → Text) (narrative_of : ℕ → ℕ → ℕ → ℕ → Text)
    (isoformat : ℕ → Text) (dumps : Projection → Text) (G : Type 0)
    (agent : Option (AgentLike title_of narrative_of isoformat dumps G)) where
  run-keeps :
      (w batch_size : ℕ) (times : List ℕ) (db : Db) (g : G) (f : DetectionFact)
      → All IsScored db.detections
      → Linked db f
      → Linked (run title_of narrative_of isoformat dumps G agent w batch_size times db g).0 f
  unfolding run
  run-keeps w batch_size [] db g f scored h = h
  run-keeps w batch_size (now ∷ times) db g f scored h =
      let after = tick title_of narrative_of isoformat dumps G agent w batch_size false now db g in
      let (same, keeps) =
        tick-keeps title_of narrative_of isoformat dumps G agent w batch_size false now db g f
          scored in
      run-keeps w batch_size times after.1.0 after.1.1 f (subst (All IsScored) (sym same) scored)
        (keeps h)

  -- A table in the order of its ids, with no score above one, of detections that are all due at
  -- every tick of a run: the run links each detection behind its cursor, where the batches are not
  -- empty and there are as many ticks as detections behind the cursor.
  pub run-Linked :
      (w batch_size : ℕ) (times : List ℕ) (db : Db) (g : G) (x : CandidateRow)
      → All IsScored db.detections
      → IsOrdered db.detections
      → All (AllDue w db.detections) times
      → length (behind (get_cursor db) db.detections) ≤ length times
      → In x db.detections
      → get_cursor db < x.id
      → Linked
          (run title_of narrative_of isoformat dumps G agent w (suc batch_size) times db g).0
          (fact_of x)
  unfolding run
  run-Linked w batch_size [] db g x scored ordered due enough h later =
      absurd
        (not_empty x _ (In-keep (λ r. ltb (get_cursor db) r.id) _ x h (lt→ltb _ _ later)) enough)
  run-Linked w batch_size (now ∷ times) db g x scored ordered (due, dues) enough h later =
      let ran =
        tick title_of narrative_of isoformat dumps G agent w (suc batch_size) false now db g in
      let (same, keeps) =
        tick-keeps title_of narrative_of isoformat dumps G agent w (suc batch_size) false now db g
          (fact_of x) scored in
      let scored' = subst (All IsScored) (sym same) scored in
      elim (tick-Advances title_of narrative_of isoformat dumps G agent w batch_size now db g x
        scored ordered due h later) [
          | inl linked ↦
              run-keeps w (suc batch_size) times ran.1.0 ran.1.1 (fact_of x) scored' linked
          | inr (later', fewer) ↦
              run-Linked w batch_size times ran.1.0 ran.1.1 x scored'
                (subst IsOrdered (sym same) ordered)
                (subst (λ ds. All (AllDue w ds) times) (sym same) dues)
                (subst (λ ds. length (behind (get_cursor ran.1.0) ds) ≤ length times) (sym same)
                  (omega (arith, fewer, enough)))
                (subst (In x) (sym same) h) later'
        ]

  process_rows-Unlinked :
      (w : ℕ) (rows : List CandidateRow) (db : Db) (g : G) (did : ℕ)
      → All IsScored rows
      → All (λ (r : CandidateRow). r.id ≢ did) rows
      → Unlinked db did
      → let after = (process_rows title_of narrative_of isoformat dumps G agent w rows db g).1.0 in
        (after.detections ≡ db.detections) × Unlinked after did
  unfolding process_rows
  process_rows-Unlinked w [] db g did scored others none' = (refl, none')
  process_rows-Unlinked w (r ∷ rs) db g did scored others none' =
      let (sum, same, cursor, keeps, spared, linked) =
        process_rows-Processed title_of narrative_of isoformat dumps G agent w r rs db g scored in
      (same, spared did others none')

  -- The cursor never moves back.
  cursor_mono :
      (w : ℕ) (rows : List CandidateRow) (db : Db) (g : G) (ran : TickResult × (Db × G))
      → Accounted title_of narrative_of isoformat dumps G agent w db g rows ran
      → get_cursor db ≤ get_cursor ran.1.0
  cursor_mono w rows db g ran (inl (e, same), all) =
      subst (λ (r : TickResult × (Db × G)). get_cursor db ≤ get_cursor r.1.0) (sym same)
        (omega arith)
  cursor_mono w rows db g ran (inr (e, lt), all) = omega (arith, lt)

  -- A detection that the cursor has passed, and no incident is linked to.
  abbrev Lost : Db → ℕ → Type 0
  Lost db did = (did ≤ get_cursor db) × Unlinked db did × All IsScored db.detections

  tick-Lost :
      (w batch_size : ℕ) (force : Bool) (now : ℕ) (db : Db) (g : G) (did : ℕ)
      → Lost db did
      → Lost
          (tick title_of narrative_of isoformat dumps G agent w batch_size force now db g).1.0
          did
  unfolding tick
  tick-Lost w batch_size force now db g did (passed, none', scored) =
      let rows = fetch w batch_size force now db in
      let fresh =
        fetch-fresh title_of narrative_of isoformat dumps G agent w batch_size force now db in
      let (same, spared) =
        process_rows-Unlinked w rows db g did
          (fetch-IsScored title_of narrative_of isoformat dumps G agent w batch_size force now db
            scored)
          (All-map (λ (r : CandidateRow) lt. apart r.id lt) rows fresh) none' in
      let mono = cursor_mono w rows db g _ (
        tick-Linked title_of narrative_of isoformat dumps G agent w batch_size force now db g
          scored) in
      (omega (arith, passed, mono), spared, subst (All IsScored) (sym same) scored)
    where
      apart : (i : ℕ) → get_cursor db < i → i ≢ did
      apart i lt e = omega (arith, passed)

  run-Lost :
      (w batch_size : ℕ) (times : List ℕ) (db : Db) (g : G) (did : ℕ)
      → Lost db did
      → Lost (run title_of narrative_of isoformat dumps G agent w batch_size times db g).0 did
  unfolding run
  run-Lost w batch_size [] db g did lost = lost
  run-Lost w batch_size (now ∷ times) db g did lost =
      let ran = tick title_of narrative_of isoformat dumps G agent w batch_size false now db g in
      run-Lost w batch_size times ran.1.0 ran.1.1 did
        (tick-Lost w batch_size false now db g did lost)

  -- A detection that the watermark holds back, while the same tick reads one with a larger id, is
  -- never linked to an incident: not by this tick, nor by any run after it.
  pub run-skips :
      (w batch_size now : ℕ) (times : List ℕ) (db : Db) (g : G) (x y : CandidateRow)
      → All IsScored db.detections
      → IsOrdered db.detections
      → In x db.detections
      → is_due w false now x ≡ false
      → In y (fetch w batch_size false now db)
      → x.id < y.id
      → Unlinked db x.id
      → let ran = tick title_of narrative_of isoformat dumps G agent w batch_size false now db g in
        Unlinked
          (run title_of narrative_of isoformat dumps G agent w batch_size times ran.1.0 ran.1.1).0
          x.id
  unfolding tick
  run-skips w batch_size now times db g x y scored ordered hx held hy lt none' =
      let rows = fetch w batch_size false now db in
      let others =
        All-every (λ (r : CandidateRow). r.id ≢ x.id) rows
          (λ r hr e.
            differ
              (same_row db.detections r x ordered
                (All-at (λ (s : CandidateRow). In s db.detections) rows r
                  (fetch-In w batch_size now false db) hr)
                hx e)
              (All-at (λ (s : CandidateRow). is_due w false now s ≡ true) rows r
                (fetch-AllDue w batch_size now db) hr)) in
      let (same, spared) =
        process_rows-Unlinked w rows db g x.id
          (fetch-IsScored title_of narrative_of isoformat dumps G agent w batch_size false now db
            scored)
          others none' in
      let (told, linked) =
        tick-Linked title_of narrative_of isoformat dumps G agent w batch_size false now db g
          scored in
      let ran = tick title_of narrative_of isoformat dumps G agent w batch_size false now db g in
      let (fresh, passed, link) = All-at _ rows y linked hy in
      (run-Lost w batch_size times ran.1.0 ran.1.1 x.id
        (omega (arith, passed, lt), spared, subst (All IsScored) (sym same) scored)).1
    where
      differ : {r : CandidateRow} → r ≡ x → is_due w false now r ≡ true → ⊥
      differ e due = cc
