-- ===== src/Correlate/Rounds.antt =====
-- The loop over the clusters in a tick of src/app/workers/correlator.py.
use sentraxis.Prelude.{
  ℕ, ◌≤◌, ◌≡◌, ◌≢◌, refl, inl, inr, ◌∙◌, sym, subst, Bool, true, Option, some, List, [], ◌∷◌,
  String, Text, All, All-map, arith,
}
use sentraxis.Correlate.Rules.{DetectionFact}
use sentraxis.Correlate.Covers.{In-append, All-at, All-every}
use sentraxis.Correlate.Clusters.{IsCluster}
use sentraxis.Correlate.Draft.{
  IncidentDraft, draft_of, build_incident_draft, build_incident_draft-Encloses,
}
use sentraxis.Correlate.Facts.{CandidateRow, Projection}
use sentraxis.Correlate.Members.{sorted_ids-All, In-sorted_ids}
use sentraxis.Correlate.Worker.{
  IncidentRow, LlmCallRow, Db, AgentLike, find_row, new_incident, save_incident, create_incident,
  process_cluster, process_clusters,
}
use sentraxis.Correlate.Linked.{
  HasRow, Enriched, Linked, Grows, Unlinked, save_incident-Unlinked, save_incident-Grows,
  In-links_of, create_incident-saved, IsReady, Done, cluster-ready,
}

module _ (title_of : ℕ → List String → Text) (narrative_of : ℕ → ℕ → ℕ → ℕ → Text)
    (isoformat : ℕ → Text) (dumps : Projection → Text) (G : Type 0)
    (agent : Option (AgentLike title_of narrative_of isoformat dumps G))
    (rows : List CandidateRow) where
  -- A draft of one entity encloses each of its detections.
  Encloses : IncidentDraft → DetectionFact → Type 0
  Encloses d f =
      (f.score ≤ d.risk_score) × (d.first_seen_at ≤ f.event_ts) × (f.event_ts ≤ d.last_seen_at)

  draft-Encloses :
      (f : DetectionFact) (fs : List DetectionFact)
      → All (λ (x : DetectionFact). x.score ≤ 10000) (f ∷ fs)
      → All (Encloses (draft_of title_of narrative_of f fs)) (f ∷ fs)
  unfolding build_incident_draft Encloses
  draft-Encloses f fs capped =
      let (d, e, cap, all, count, ids) =
        build_incident_draft-Encloses title_of narrative_of (f ∷ fs) (λ q. cc) capped in
      subst (λ (x : IncidentDraft). All (Encloses x) (f ∷ fs)) (same d e) all
    where
      same :
          (d : IncidentDraft)
          → some (draft_of title_of narrative_of f fs) ≡ some d
          → d ≡ draft_of title_of narrative_of f fs
      same d e = cc

  save-Linked :
      (f : DetectionFact) (fs : List DetectionFact) (identifier : Text) (db : Db) (i : IncidentRow)
      (calls : List LlmCallRow)
      → let draft = draft_of title_of narrative_of f fs in
        All (λ (x : DetectionFact). x.score ≤ 10000) (f ∷ fs)
        → ((entity : ℕ) × All (λ (x : DetectionFact). x.entity_id ≡ entity) (f ∷ fs))
        → Enriched (new_incident db.next_id draft identifier) i
        → All (Linked (save_incident i draft.detection_ids calls db)) (f ∷ fs)
  unfolding save_incident new_incident draft_of Encloses
  save-Linked f fs identifier db i calls capped (entity, same) (a, b, c, d, e) =
      let draft = draft_of title_of narrative_of f fs in
      All-every (Linked (save_incident i draft.detection_ids calls db)) (f ∷ fs) (λ x h.
        let (score, first, last) =
          All-at (Encloses draft) (f ∷ fs) x (draft-Encloses f fs capped) h in
        let entity_x = All-at (λ (y : DetectionFact). y.entity_id ≡ entity) (f ∷ fs) x same h in
        (
          i,
          In-append i db.incidents _ (inr (inl refl)),
          In-append _ db.links _
              (inr (In-links_of i.id x.detection_id _ (In-sorted_ids x (f ∷ fs) h))),
          b ∙ same.0 ∙ sym entity_x,
          omega (arith, score, e),
          omega (arith, first, c),
          omega (arith, last, d),
        ))

  drafted :
      (f : DetectionFact) (fs : List DetectionFact)
      → All (λ (x : DetectionFact). HasRow rows x.detection_id) (f ∷ fs)
      → All (HasRow rows) (draft_of title_of narrative_of f fs).detection_ids
  unfolding draft_of
  drafted f fs present = sorted_ids-All (HasRow rows) (f ∷ fs) present

  apart :
      (f : DetectionFact) (fs : List DetectionFact) (did : ℕ)
      → All (λ (x : DetectionFact). x.detection_id ≢ did) (f ∷ fs)
      → All (λ n. n ≢ did) (draft_of title_of narrative_of f fs).detection_ids
  unfolding draft_of
  apart f fs did others = sorted_ids-All (λ n. n ≢ did) (f ∷ fs) others

  process_cluster-eq :
      (f : DetectionFact) (fs : List DetectionFact) (r : CandidateRow) (db : Db) (g : G)
      → find_row rows f.detection_id ≡ some r
      → process_cluster title_of narrative_of isoformat dumps G agent rows (f ∷ fs) db g
        ≡ create_incident title_of narrative_of isoformat dumps G agent rows
            (draft_of title_of narrative_of f fs)
            r.identifier
            db
            g
  unfolding process_cluster build_incident_draft
  process_cluster-eq f fs r db g e = rw (e, process_cluster) refl

  pub process_cluster-Done :
      (c : List DetectionFact) (w : ℕ) (db : Db) (g : G)
      → IsCluster w c
      → All (IsReady title_of narrative_of isoformat dumps G rows) c
      → Done title_of narrative_of isoformat dumps G db c
          (process_cluster title_of narrative_of isoformat dumps G agent rows c db g)
  unfolding process_cluster build_incident_draft
  process_cluster-Done [] w db g (some', close, one) ready = absurd (some' refl)
  process_cluster-Done (f ∷ fs) w db g (some', close, one) ready =
      let (present, capped) =
        cluster-ready title_of narrative_of isoformat dumps G rows (f ∷ fs) ready in
      let (r, found) = present.0 in
      let draft = draft_of title_of narrative_of f fs in
      let (i, calls, after, e, better) =
        create_incident-saved title_of narrative_of isoformat dumps G agent rows draft r.identifier
          db g (drafted f fs present) in
      subst (Done title_of narrative_of isoformat dumps G db (f ∷ fs))
        (sym (process_cluster-eq f fs r db g found ∙ e))
        (
          refl,
          save_incident-Grows i draft.detection_ids calls db,
          λ did others none'.
              save_incident-Unlinked i draft.detection_ids calls db did (apart f fs did others)
                none',
          save-Linked f fs r.identifier db i calls capped one better,
        )

  Grows-trans : (a b c : Db) → Grows a b → Grows b c → Grows a c
  Grows-trans a b c (x, y, h) (x', y', h') = (x' ∙ x, y' ∙ y, λ f l. h' f (h f l))

  -- The loop does not raise, and links the detections of all its clusters.
  abbrev pub Finished : Db → List (List DetectionFact) → Bool × (Db × G) → Type 0
  Finished db cs ran =
      (ran.0 ≡ true)
      × Grows db ran.1.0
      × ((did : ℕ)
          → All (All (λ (f : DetectionFact). f.detection_id ≢ did)) cs
          → Unlinked db did
          → Unlinked ran.1.0 did)
      × All (All (Linked ran.1.0)) cs

  process_clusters-eq :
      (c : List DetectionFact) (cs : List (List DetectionFact)) (db : Db) (g : G)
      → let round = process_cluster title_of narrative_of isoformat dumps G agent rows c db g in
        round.0 ≡ true
        → process_clusters title_of narrative_of isoformat dumps G agent rows (c ∷ cs) db g
          ≡ process_clusters title_of narrative_of isoformat dumps G agent rows cs round.1.0
              round.1.1
  unfolding process_clusters
  process_clusters-eq c cs db g e = rw (e, process_clusters) refl

  pub process_clusters-Finished :
      (cs : List (List DetectionFact)) (w : ℕ) (db : Db) (g : G)
      → All (IsCluster w) cs
      → All (All (IsReady title_of narrative_of isoformat dumps G rows)) cs
      → Finished db cs (process_clusters title_of narrative_of isoformat dumps G agent rows cs db g)
  unfolding process_clusters
  process_clusters-Finished [] w db g shapes ready =
      (refl, (refl, refl, λ f h. h), λ did others none'. none', tt)
  process_clusters-Finished (c ∷ cs) w db g (shape, shapes) (ready, readies) =
      let round = process_cluster title_of narrative_of isoformat dumps G agent rows c db g in
      let (ok, grows, spares, linked) = process_cluster-Done c w db g shape ready in
      let rest =
        process_clusters title_of narrative_of isoformat dumps G agent rows cs round.1.0
          round.1.1 in
      let (oks, more, spared, all) =
        process_clusters-Finished cs w round.1.0 round.1.1 shapes readies in
      subst (Finished db (c ∷ cs)) (sym (process_clusters-eq c cs db g ok)) (
        oks,
        Grows-trans db round.1.0 rest.1.0 grows more,
        λ did others none'. spared did others.1 (spares did others.0 none'),
        (All-map (λ f h. more.2 f h) c linked, all),
      )
