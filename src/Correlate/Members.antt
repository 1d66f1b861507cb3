-- ===== src/Correlate/Members.antt =====
-- The detections in the clusters and drafts of src/app/correlation/rules.py come from the batch.
use sentraxis.Prelude.{
  ℕ, ◌≡◌, refl, ◌⊎◌, inl, inr, Bool, List, [], ◌∷◌, ◌++◌, leb, ◌==◌, keep, All, All-append,
  Bool-cases,
}
use sentraxis.Correlate.Rules.{
  DetectionFact, fact_ltb, insert_fact, sorted, last_of, is_gap, close, split_rows, entities_of,
  cluster_entities, cluster_by_entity_and_time,
}
use sentraxis.Correlate.Draft.{insert_number, sorted_ids}
use sentraxis.Correlate.Covers.{In}

module _ (P : DetectionFact → Type 0) where
  insert_fact-All :
      (f : DetectionFact) (fs : List DetectionFact) → P f → All P fs → All P (insert_fact f fs)
  unfolding insert_fact
  insert_fact-All f [] p all = (p, tt)
  insert_fact-All f (g ∷ gs) p (q, qs) = elim (Bool-cases (fact_ltb g f)) [
    | inl e ↦ rw e (q, insert_fact-All f gs p qs)
    | inr e ↦ rw e (p, (q, qs))
  ]

  sorted-All : (fs : List DetectionFact) → All P fs → All P (sorted fs)
  unfolding sorted
  sorted-All [] all = tt
  sorted-All (f ∷ fs) (p, all) = insert_fact-All f (sorted fs) p (sorted-All fs all)

  keep-All : (t : DetectionFact → Bool) (fs : List DetectionFact) → All P fs → All P (keep t fs)
  keep-All t [] all = tt
  keep-All t (f ∷ fs) (p, all) = elim (Bool-cases (t f)) [
    | inl e ↦ rw e (p, keep-All t fs all)
    | inr e ↦ rw e (keep-All t fs all)
  ]

  split_rows-All :
      (w : ℕ) (current rows : List DetectionFact)
      → All P current
      → All P rows
      → All (All P) (split_rows w current rows)
  unfolding split_rows close
  split_rows-All w [] [] c r = tt
  split_rows-All w (f ∷ fs) [] c r = (c, tt)
  split_rows-All w current (row ∷ rows) c (r, rs) =
      elim (Bool-cases (is_gap w (last_of current) row)) [
        | inl e ↦ rw e (c, split_rows-All w (row ∷ []) rows (r, tt) rs)
        | inr e ↦
            rw e
              (split_rows-All w (current ++ (row ∷ [])) rows (All-append P current _ c (r, tt)) rs)
      ]

  cluster_entities-All :
      (w : ℕ) (ids : List ℕ) (facts : List DetectionFact)
      → All P facts
      → All (All P) (cluster_entities w ids facts)
  unfolding cluster_entities
  cluster_entities-All w [] facts all = tt
  cluster_entities-All w (i ∷ ids) facts all =
      All-append (All P) _ _
        (split_rows-All w [] (keep (λ f. f.entity_id == i) facts) tt (keep-All _ facts all))
        (cluster_entities-All w ids facts all)

  pub cluster_by_entity_and_time-All :
      (facts : List DetectionFact) (w : ℕ)
      → All P facts
      → All (All P) (cluster_by_entity_and_time facts w)
  unfolding cluster_by_entity_and_time
  cluster_by_entity_and_time-All facts w all =
      cluster_entities-All w (entities_of (sorted facts)) (sorted facts) (sorted-All facts all)

insert_number-All :
    (Q : ℕ → Type 0) (i : ℕ) (js : List ℕ) → Q i → All Q js → All Q (insert_number i js)
unfolding insert_number
insert_number-All Q i [] q all = (q, tt)
insert_number-All Q i (j ∷ js) q (p, ps) = elim (Bool-cases (leb i j)) [
  | inl e ↦ rw e (q, (p, ps))
  | inr e ↦ rw e (p, insert_number-All Q i js q ps)
]

pub sorted_ids-All :
    (Q : ℕ → Type 0) (fs : List DetectionFact)
    → All (λ (f : DetectionFact). Q f.detection_id) fs
    → All Q (sorted_ids fs)
unfolding sorted_ids
sorted_ids-All Q [] all = tt
sorted_ids-All Q (f ∷ fs) (q, all) =
    insert_number-All Q f.detection_id (sorted_ids fs) q (sorted_ids-All Q fs all)

In-insert_number : (x i : ℕ) (js : List ℕ) → (i ≡ x) ⊎ In x js → In x (insert_number i js)
unfolding insert_number
In-insert_number x i [] h = h
In-insert_number x i (j ∷ js) h = elim (Bool-cases (leb i j)) [
  | inl e ↦ rw e h
  | inr e ↦ rw e (elim h [
    | inl q ↦ inr (In-insert_number x i js (inl q))
    | inr (inl q) ↦ inl q
    | inr (inr q) ↦ inr (In-insert_number x i js (inr q))
  ])
]

pub In-sorted_ids :
    (f : DetectionFact) (fs : List DetectionFact) → In f fs → In f.detection_id (sorted_ids fs)
unfolding sorted_ids
In-sorted_ids f [] h = elim h [ ]
In-sorted_ids f (g ∷ gs) (inl e) =
    In-insert_number f.detection_id g.detection_id _ (inl (rw e refl))
In-sorted_ids f (g ∷ gs) (inr h) =
    In-insert_number f.detection_id g.detection_id _ (inr (In-sorted_ids f gs h))
