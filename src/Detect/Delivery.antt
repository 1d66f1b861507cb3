-- ===== src/Detect/Delivery.antt =====
-- Cursor and uniqueness in a tick of src/app/workers/detector.py.
use sentraxis.Prelude.{
  ℕ, zero, suc, ◌+◌, ◌≤◌, ◌<◌, ◌≡◌, refl, ◌∙◌, ◌⊎◌, inl, inr, Bool, false, List, [], ◌∷◌, ◌++◌, ltb,
  Option, none, some, all, ltb→lt, max, keep, any, take, length, length-append, All, All-map, arith,
  Bool-cases, ◌||◌, eq_iff,
}
use sentraxis.Detect.Float.{Float}
use sentraxis.Detect.Base.{EventView, Detection}
use sentraxis.Detect.Worker.{
  Db, Detector, Summary, inserted_all, finish_tick, get_cursor, set_cursor, same_key, has_detection,
  insert_detections, record_detections, fetch_batch, run_detectors, max_id, process_views, tick,
}

module _ (fl : Float) (S : Type 0) where
  -- No two rows have the same key: the unique constraint.
  abbrev pub IsUnique : List (Detection fl) → Type 0
  IsUnique [] = Unit
  IsUnique (d ∷ ds) = (any (λ r. same_key fl S r d) ds ≡ false) × IsUnique ds

  same_key_sym : (d e : Detection fl) → same_key fl S d e ≡ same_key fl S e d
  unfolding same_key
  same_key_sym d e = ground (arith, eq_iff d.detector e.detector, eq_iff e.detector d.detector)

  absent-append :
      (x d : Detection fl) (rows : List (Detection fl))
      → any (λ r. same_key fl S r x) rows ≡ false
      → same_key fl S d x ≡ false
      → any (λ r. same_key fl S r x) (rows ++ (d ∷ [])) ≡ false
  absent-append x d [] h e = ground arith
  absent-append x d (r ∷ rows) h e = ground (arith, absent-append x d rows)

  IsUnique-append :
      (rows : List (Detection fl)) (d : Detection fl)
      → IsUnique rows
      → has_detection fl S d rows ≡ false
      → IsUnique (rows ++ (d ∷ []))
  unfolding has_detection
  IsUnique-append [] d u h = (refl, tt)
  IsUnique-append (r ∷ rows) d (a, u) h =
      (absent-append r d rows a (same_key_sym d r ∙ left _ h), IsUnique-append rows d u (right _ h))
    where
      left : {a : Bool} (b : Bool) → (a || b) ≡ false → a ≡ false
      left {a = a} b e = ground arith

      right : (a : Bool) {b : Bool} → (a || b) ≡ false → b ≡ false
      right a {b = b} e = ground arith

  insert_detections-IsUnique :
      (ds rows : List (Detection fl))
      → IsUnique rows
      → IsUnique (insert_detections fl S ds rows).0
        × (length (insert_detections fl S ds rows).0
            ≡ length rows + (insert_detections fl S ds rows).1)
  unfolding insert_detections
  insert_detections-IsUnique [] rows u = (u, omega arith)
  insert_detections-IsUnique (d ∷ ds) rows u = elim (Bool-cases (has_detection fl S d rows)) [
    | inl old ↦ rw old (insert_detections-IsUnique ds rows u)
    | inr new ↦
        let (v, n) =
          insert_detections-IsUnique ds (rows ++ (d ∷ [])) (IsUnique-append rows d u new) in
        rw new (v, omega (arith, n, length-append rows (d ∷ [])))
  ]

  max_id-All : (es : List EventView) → All (λ e. e.id ≤ max_id fl S es) es
  unfolding max_id
  max_id-All [] = tt
  max_id-All (e ∷ es) = (
    omega arith,
    All-map (λ (x : EventView) le. le_max x.id (max_id fl S es) e.id le) es (max_id-All es),
  )
    where
      le_max : (a b c : ℕ) → a ≤ b → a ≤ max c b
      le_max a b c le = omega arith

  take-All : (P : EventView → Type 0) (n : ℕ) (es : List EventView) → All P es → All P (take n es)
  take-All P zero es h = tt
  take-All P (suc n) [] h = tt
  take-All P (suc n) (e ∷ es) h = (h.0, take-All P n es h.1)

  keep-All : (c : ℕ) (es : List EventView) → All (λ e. c < e.id) (keep (λ e. ltb c e.id) es)
  keep-All c [] = tt
  keep-All c (e ∷ es) = elim (Bool-cases (ltb c e.id)) [
    | inl q ↦ rw q (ltb→lt c e.id q, keep-All c es)
    | inr q ↦ rw q (keep-All c es)
  ]

  -- What a tick that is committed did to the database.
  abbrev pub Delivered : List EventView → Db fl S → Db fl S → Type 0
  Delivered views db after =
      IsUnique after.detections
      × (((views ≡ []) × (after ≡ db)) ⊎ (get_cursor fl S db < get_cursor fl S after))
      × All (λ e. get_cursor fl S db < e.id) views
      × All (λ e. e.id ≤ get_cursor fl S after) views

  -- It is committed, or the database refuses one of the detections that were found.
  abbrev pub Ends :
      (Detection fl → Bool)
      → List (Detector fl S)
      → List EventView
      → Db fl S
      → Option (Summary fl S × Db fl S)
      → Type 0
  Ends accepts detectors views db r =
      ((s : Summary fl S) × (after : Db fl S) × (r ≡ some (s, after)) × Delivered views db after)
      ⊎ ((r ≡ none) × (all accepts (run_detectors fl S detectors views db.states).0 ≡ false))

  process_views_lem :
      (accepts : Detection fl → Bool) (detectors : List (Detector fl S)) (views : List EventView)
      (db : Db fl S)
      → All (λ e. get_cursor fl S db < e.id) views
      → IsUnique db.detections
      → Ends accepts detectors views db (process_views fl S accepts detectors views db)
  unfolding process_views record_detections inserted_all finish_tick set_cursor get_cursor
  process_views_lem accepts detectors [] db fresh u =
      inl (_, db, refl, (u, inl (refl, refl), tt, tt))
  process_views_lem accepts detectors (v ∷ vs) db fresh u =
      let found = (run_detectors fl S detectors (v ∷ vs) db.states).0 in
      let states = (run_detectors fl S detectors (v ∷ vs) db.states).1 in
      let done =
        finish_tick fl S (v ∷ vs) (length found)
          (inserted_all fl S found (record db { states = states })) in
      elim (Bool-cases (all accepts found)) [
        | inr bad ↦ inr (rw (bad, process_views) refl, bad)
        | inl fine ↦ inl (
          done.0,
          done.1,
          rw (fine, process_views) refl,
          (
            (insert_detections-IsUnique found db.detections u).0,
            inr (omega (arith, fresh.0, (max_id-All (v ∷ vs)).0)),
            fresh,
            max_id-All (v ∷ vs),
          ),
        )
      ]

  -- A tick is committed unless the database refuses one of the detections that were found, and then
  -- nothing is written. A committed tick keeps the detections free of two rows with the same event,
  -- detector and version, even when detectors emit duplicates or raise; with nothing to read it
  -- changes nothing, any other moves the cursor strictly forward, from before every event that it
  -- read to behind all of them.
  pub tick_lem :
      (accepts : Detection fl → Bool) (detectors : List (Detector fl S)) (batch_size : ℕ)
      (db : Db fl S)
      → IsUnique db.detections
      → Ends accepts detectors
          (fetch_batch fl S batch_size db)
          db
          (tick fl S accepts detectors batch_size db)
  unfolding tick fetch_batch
  tick_lem accepts detectors batch_size db u =
      process_views_lem accepts detectors (fetch_batch fl S batch_size db) db
        (take-All (λ e. get_cursor fl S db < e.id) batch_size _
          (keep-All (get_cursor fl S db) db.events))
        u
