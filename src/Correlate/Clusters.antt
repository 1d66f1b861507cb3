-- ===== src/Correlate/Clusters.antt =====
-- What the clusters of src/app/correlation/rules.py are.
use sentraxis.Prelude.{
  ℕ, ◌-◌, ◌*◌, ◌≤◌, ◌≡◌, ◌≢◌, inl, inr, true, false, List, [], ◌∷◌, ◌++◌, ◌==◌, ==_iff, keep, All,
  All-append, arith, Bool-cases,
}
use sentraxis.Detect.Base.{second}
use sentraxis.Correlate.Rules.{
  DetectionFact, last_of, is_gap, close, split_rows, entities_of, cluster_entities,
  cluster_by_entity_and_time, sorted,
}

-- Consecutive facts lie at most a window apart.
abbrev pub IsClose : ℕ → List DetectionFact → Type 0
IsClose w [] = Unit
IsClose w (f ∷ []) = Unit
IsClose w (f ∷ g ∷ gs) = (g.event_ts - f.event_ts ≤ w * second) × IsClose w (g ∷ gs)

-- One entity's facts, at least one, with no gap between them.
abbrev pub IsCluster : ℕ → List DetectionFact → Type 0
IsCluster w c =
    (c ≢ []) × IsClose w c × ((entity : ℕ) × All (λ (f : DetectionFact). f.entity_id ≡ entity) c)

abbrev OfEntity : ℕ → List DetectionFact → Type 0
OfEntity i c = All (λ (f : DetectionFact). f.entity_id ≡ i) c

snoc-IsClose :
    (w : ℕ) (current : List DetectionFact) (row : DetectionFact)
    → IsClose w current
    → is_gap w (last_of current) row ≡ false
    → IsClose w (current ++ (row ∷ []))
unfolding is_gap last_of
snoc-IsClose w [] row c e = tt
snoc-IsClose w (f ∷ []) row c e = (ground arith, tt)
snoc-IsClose w (f ∷ g ∷ gs) row c e = (c.0, snoc-IsClose w (g ∷ gs) row c.1 e)

snoc≢[] : (xs : List DetectionFact) (x : DetectionFact) → xs ++ (x ∷ []) ≢ []
snoc≢[] [] x e = cc
snoc≢[] (y ∷ ys) x e = cc

gap-nonempty :
    (w : ℕ) (current : List DetectionFact) (row : DetectionFact)
    → is_gap w (last_of current) row ≡ true
    → current ≢ []
unfolding is_gap last_of
gap-nonempty w [] row e q = cc
gap-nonempty w (f ∷ fs) row e q = cc

split_rows-IsCluster :
    (w i : ℕ) (current rows : List DetectionFact)
    → IsClose w current
    → OfEntity i current
    → OfEntity i rows
    → All (IsCluster w) (split_rows w current rows)
unfolding split_rows close
split_rows-IsCluster w i [] [] c oc r = tt
split_rows-IsCluster w i (f ∷ fs) [] c oc r = (((λ e. cc), c, (i, oc)), tt)
split_rows-IsCluster w i current (row ∷ rows) c oc (r, rs) =
    elim (Bool-cases (is_gap w (last_of current) row)) [
      | inl gap ↦ rw gap (
        (gap-nonempty w current row gap, c, (i, oc)),
        split_rows-IsCluster w i (row ∷ []) rows tt (r, tt) rs,
      )
      | inr none' ↦ rw none' (
          split_rows-IsCluster w i (current ++ (row ∷ [])) rows (snoc-IsClose w current row c none')
            (All-append _ current (row ∷ []) oc (r, tt)) rs)
    ]

keep-OfEntity :
    (i : ℕ) (facts : List DetectionFact) → OfEntity i (keep (λ f. f.entity_id == i) facts)
keep-OfEntity i [] = tt
keep-OfEntity i (f ∷ fs) = elim (Bool-cases (f.entity_id == i)) [
  | inl e ↦ rw e ((==_iff f.entity_id i).0 e, keep-OfEntity i fs)
  | inr e ↦ rw e (keep-OfEntity i fs)
]

cluster_entities-IsCluster :
    (w : ℕ) (ids : List ℕ) (facts : List DetectionFact)
    → All (IsCluster w) (cluster_entities w ids facts)
unfolding cluster_entities
cluster_entities-IsCluster w [] facts = tt
cluster_entities-IsCluster w (i ∷ ids) facts =
    All-append (IsCluster w) _ _
      (split_rows-IsCluster w i [] (keep (λ f. f.entity_id == i) facts) tt tt
        (keep-OfEntity i facts))
      (cluster_entities-IsCluster w ids facts)

-- Every cluster has at least one detection, all of its detections are of one entity, and each lies at
-- most the window after the one before it.
pub cluster_by_entity_and_time-IsCluster :
    (facts : List DetectionFact) (w : ℕ) → All (IsCluster w) (cluster_by_entity_and_time facts w)
unfolding cluster_by_entity_and_time
cluster_by_entity_and_time-IsCluster facts w =
    cluster_entities-IsCluster w (entities_of (sorted facts)) (sorted facts)
