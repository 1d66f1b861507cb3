-- ===== src/Correlate/Ticked.antt =====
-- One tick of src/app/workers/correlator.py.
use sentraxis.Prelude.{
  ℕ, ◌≤◌, ◌<◌, ◌≡◌, ◌≢◌, refl, ◌⊎◌, inl, inr, sym, subst, Bool, true, ◌&&◌, Option, List, [], ◌∷◌,
  String, Text, ltb, map, keep, length, All, All-map, arith,
}
use sentraxis.Correlate.Rules.{DetectionFact, cluster_by_entity_and_time}
use sentraxis.Correlate.Clusters.{cluster_by_entity_and_time-IsCluster}
use sentraxis.Correlate.Covers.{In, InSome, All-at, All-every, cluster_by_entity_and_time_lem}
use sentraxis.Correlate.Facts.{CandidateRow, Projection}
use sentraxis.Correlate.Members.{cluster_by_entity_and_time-All}
use sentraxis.Correlate.Worker.{
  Db, TickResult, summary, AgentLike, get_cursor, set_cursor, is_due, fetch, fact_of,
  process_clusters, max_id, process_rows, tick,
}
use sentraxis.Correlate.Linked.{In-HasRow, Linked, Unlinked, IsReady}
use sentraxis.Correlate.Pending.{keep-All, take-All, keep-test}
use sentraxis.Correlate.Rounds.{process_clusters-Finished}

All-some :
    (P : DetectionFact → Type 0) (cs : List (List DetectionFact)) (x : DetectionFact)
    → All (All P) cs
    → InSome x cs
    → P x
All-some P [] x all h = elim h [ ]
All-some P (c ∷ cs) x (p, ps) (inl h) = All-at P c x p h
All-some P (c ∷ cs) x (p, ps) (inr h) = All-some P cs x ps h

In-map : (r : CandidateRow) (rs : List CandidateRow) → In r rs → In (fact_of r) (map fact_of rs)
In-map r [] h = elim h [ ]
In-map r (s ∷ rs) (inl e) = inl (subst (λ (x : CandidateRow). fact_of s ≡ fact_of x) e refl)
In-map r (s ∷ rs) (inr h) = inr (In-map r rs h)

map-apart :
    (did : ℕ) (rs : List CandidateRow)
    → All (λ (r : CandidateRow). r.id ≢ did) rs
    → All (λ (f : DetectionFact). f.detection_id ≢ did) (map fact_of rs)
unfolding fact_of
map-apart did [] all = tt
map-apart did (r ∷ rs) (p, all) = (p, map-apart did rs all)

-- A score is at most one.
abbrev pub IsScored : CandidateRow → Type 0
IsScored r = r.score ≤ 10000

module _ (title_of : ℕ → List String → Text) (narrative_of : ℕ → ℕ → ℕ → ℕ → Text)
    (isoformat : ℕ → Text) (dumps : Projection → Text) (G : Type 0)
    (agent : Option (AgentLike title_of narrative_of isoformat dumps G)) where
  ready :
      (rows rs : List CandidateRow)
      → ((r : CandidateRow) → In r rs → In r rows)
      → All IsScored rs
      → All (IsReady title_of narrative_of isoformat dumps G rows) (map fact_of rs)
  unfolding fact_of
  ready rows [] sub all = tt
  ready rows (r ∷ rs) sub (p, all) =
      ((In-HasRow r rows (sub r (inl refl)), p), ready rows rs (λ x h. sub x (inr h)) all)

  pub max_id-All :
      (rs : List CandidateRow)
      → All (λ (r : CandidateRow). r.id ≤ max_id title_of narrative_of isoformat dumps G rs) rs
  unfolding max_id
  max_id-All [] = tt
  max_id-All (r ∷ rs) =
      (omega arith, All-map (λ (x : CandidateRow) le. omega arith) rs (max_id-All rs))

  -- What a tick that read the rows leaves: a new cursor, and an incident for each of them.
  abbrev pub Processed : ℕ → Db → List CandidateRow → TickResult × (Db × G) → Type 0
  Processed w db rows ran =
      (ran.0 ≡ summary (length rows) (length (cluster_by_entity_and_time (map fact_of rows) w)))
      × (ran.1.0.detections ≡ db.detections)
      × (get_cursor ran.1.0 ≡ max_id title_of narrative_of isoformat dumps G rows)
      × ((f : DetectionFact) → Linked db f → Linked ran.1.0 f)
      × ((did : ℕ)
          → All (λ (r : CandidateRow). r.id ≢ did) rows
          → Unlinked db did
          → Unlinked ran.1.0 did)
      × All (λ (r : CandidateRow). Linked ran.1.0 (fact_of r)) rows

  process_rows-eq :
      (w : ℕ) (r : CandidateRow) (rs : List CandidateRow) (db : Db) (g : G)
      → let rows = r ∷ rs in
        let clusters = cluster_by_entity_and_time (map fact_of rows) w in
        let ran =
          process_clusters title_of narrative_of isoformat dumps G agent rows clusters db g in
        ran.0 ≡ true
        → process_rows title_of narrative_of isoformat dumps G agent w rows db g ≡ (
          summary (length rows) (length clusters),
          (set_cursor (max_id title_of narrative_of isoformat dumps G rows) ran.1.0, ran.1.1),
        )
  unfolding process_rows
  process_rows-eq w r rs db g e = rw (e, process_rows) refl

  pub process_rows-Processed :
      (w : ℕ) (r : CandidateRow) (rs : List CandidateRow) (db : Db) (g : G)
      → All IsScored (r ∷ rs)
      → Processed w db
          (r ∷ rs)
          (process_rows title_of narrative_of isoformat dumps G agent w (r ∷ rs) db g)
  unfolding set_cursor get_cursor
  process_rows-Processed w r rs db g scored =
      let rows = r ∷ rs in
      let facts = map fact_of rows in
      let clusters = cluster_by_entity_and_time facts w in
      let ran = process_clusters title_of narrative_of isoformat dumps G agent rows clusters db g in
      let (ok, grows, spared, linked) =
        process_clusters-Finished title_of narrative_of isoformat dumps G agent rows clusters w db g
          (cluster_by_entity_and_time-IsCluster facts w)
          (cluster_by_entity_and_time-All (IsReady title_of narrative_of isoformat dumps G rows)
            facts w (ready rows rows (λ x h. h) scored)) in
      subst (Processed w db rows) (sym (process_rows-eq w r rs db g ok)) (
        refl,
        grows.0,
        refl,
        grows.2,
        λ did others none'.
            spared did
              (cluster_by_entity_and_time-All (λ (f : DetectionFact). f.detection_id ≢ did) facts w
                (map-apart did rows others))
              none',
        All-every (λ (x : CandidateRow). Linked ran.1.0 (fact_of x)) rows
            (λ x h.
              All-some (Linked ran.1.0) clusters (fact_of x) linked
                (cluster_by_entity_and_time_lem facts w (fact_of x) (In-map x rows h)).1),
      )

  -- Nothing was read and nothing changed, or the cursor moved forward; and the rows that were read
  -- are linked and behind the cursor.
  abbrev pub Accounted : ℕ → Db → G → List CandidateRow → TickResult × (Db × G) → Type 0
  Accounted w db g rows ran =
      (((rows ≡ []) × (ran ≡ (summary 0 0, (db, g))))
        ⊎ ((ran.0
              ≡ summary (length rows) (length (cluster_by_entity_and_time (map fact_of rows) w)))
            × (get_cursor db < get_cursor ran.1.0)))
      × All
          (λ (r : CandidateRow).
            (get_cursor db < r.id) × (r.id ≤ get_cursor ran.1.0) × Linked ran.1.0 (fact_of r))
          rows

  process_rows-Accounted :
      (w : ℕ) (rows : List CandidateRow) (db : Db) (g : G)
      → All IsScored rows
      → All (λ (r : CandidateRow). get_cursor db < r.id) rows
      → Accounted w db g rows
          (process_rows title_of narrative_of isoformat dumps G agent w rows db g)
  unfolding process_rows
  process_rows-Accounted w [] db g scored after = (inl (refl, refl), tt)
  process_rows-Accounted w (r ∷ rs) db g scored after =
      let rows = r ∷ rs in
      let (sum, same, cursor, keeps, spared, linked) = process_rows-Processed w r rs db g scored in
      let top = max_id-All rows in
      (
        inr (sum, omega (arith, cursor, after.0, top.0)),
        All-every _ rows (λ x h. (
          All-at (λ (y : CandidateRow). get_cursor db < y.id) rows x after h,
          omega (
            arith,
            cursor,
            All-at
                (λ (y : CandidateRow). y.id ≤ max_id title_of narrative_of isoformat dumps G rows)
                rows x top h,
          ),
          All-at _ rows x linked h,
        )),
      )

  pub fetch-fresh :
      (w batch_size : ℕ) (force : Bool) (now : ℕ) (db : Db)
      → All (λ (r : CandidateRow). get_cursor db < r.id) (fetch w batch_size force now db)
  unfolding fetch
  fetch-fresh w batch_size force now db =
      let t : CandidateRow → Bool = λ r. ltb (get_cursor db) r.id && is_due w force now r in
      take-All _ batch_size (keep t db.detections) (
        All-map (λ (r : CandidateRow) e. fresh (get_cursor db) r.id (is_due w force now r) e) _
          (keep-test t db.detections))
    where
      fresh : (c i : ℕ) (b : Bool) → (ltb c i && b) ≡ true → c < i
      fresh c i b e = ground arith

  pub fetch-IsScored :
      (w batch_size : ℕ) (force : Bool) (now : ℕ) (db : Db)
      → All IsScored db.detections
      → All IsScored (fetch w batch_size force now db)
  unfolding fetch
  fetch-IsScored w batch_size force now db scored =
      take-All IsScored batch_size _ (keep-All IsScored _ db.detections scored)

  -- With no score above one, a tick does not raise. With nothing to read it changes nothing; any
  -- other tick moves the cursor strictly forward, past every detection that it read, and leaves
  -- each of them linked to an incident of its entity, whose risk is at least the detection's score,
  -- with or without an agent, and whose times enclose the detection's stamp.
  pub tick-Linked :
      (w batch_size : ℕ) (force : Bool) (now : ℕ) (db : Db) (g : G)
      → All IsScored db.detections
      → Accounted w db g
          (fetch w batch_size force now db)
          (tick title_of narrative_of isoformat dumps G agent w batch_size force now db g)
  unfolding tick
  tick-Linked w batch_size force now db g scored =
      process_rows-Accounted w (fetch w batch_size force now db) db g
        (fetch-IsScored w batch_size force now db scored) (fetch-fresh w batch_size force now db)
