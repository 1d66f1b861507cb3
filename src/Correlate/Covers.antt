-- ===== src/Correlate/Covers.antt =====
-- Membership of detections in the clusters of src/app/correlation/rules.py.
use sentraxis.Prelude.{
  ℕ, ◌≡◌, refl, subst, sym, ◌⊎◌, inl, inr, true, List, [], ◌∷◌, ◌++◌, ltb, ◌==◌, ==_iff, keep, All,
  arith, Bool-cases,
}
use sentraxis.Correlate.Rules.{
  DetectionFact, fact_ltb, insert_fact, sorted, last_of, is_gap, close, split_rows, insert_id,
  entities_of, cluster_entities, cluster_by_entity_and_time,
}
use sentraxis.Correlate.Clusters.{IsCluster, cluster_by_entity_and_time-IsCluster}

-- The value stands in the list.
abbrev pub In : {A : Type 0} → A → List A → Type 0
In x [] = ⊥
In x (y ∷ ys) = (y ≡ x) ⊎ In x ys

-- The value stands in one of the lists.
abbrev pub InSome : {A : Type 0} → A → List (List A) → Type 0
InSome x [] = ⊥
InSome x (ys ∷ rest) = In x ys ⊎ InSome x rest

module _ {A : Type 0} where
  pub In-append : (x : A) (xs ys : List A) → In x xs ⊎ In x ys → In x (xs ++ ys)
  In-append x [] ys (inl h) = elim h [ ]
  In-append x [] ys (inr h) = h
  In-append x (y ∷ xs) ys (inl (inl e)) = inl e
  In-append x (y ∷ xs) ys (inl (inr h)) = inr (In-append x xs ys (inl h))
  In-append x (y ∷ xs) ys (inr h) = inr (In-append x xs ys (inr h))

  pub All-at : (P : A → Type 0) (xs : List A) (x : A) → All P xs → In x xs → P x
  All-at P [] x all h = elim h [ ]
  All-at P (y ∷ xs) x (p, ps) (inl e) = subst P e p
  All-at P (y ∷ xs) x (p, ps) (inr h) = All-at P xs x ps h

  pub All-every : (P : A → Type 0) (xs : List A) → ((x : A) → In x xs → P x) → All P xs
  All-every P [] f = tt
  All-every P (x ∷ xs) f = (f x (inl refl), All-every P xs (λ y h. f y (inr h)))

  InSome-append : (x : A) (xs ys : List (List A)) → InSome x xs ⊎ InSome x ys → InSome x (xs ++ ys)
  InSome-append x [] ys (inl h) = elim h [ ]
  InSome-append x [] ys (inr h) = h
  InSome-append x (y ∷ xs) ys (inl (inl e)) = inl e
  InSome-append x (y ∷ xs) ys (inl (inr h)) = inr (InSome-append x xs ys (inl h))
  InSome-append x (y ∷ xs) ys (inr h) = inr (InSome-append x xs ys (inr h))

In-insert_fact :
    (x f : DetectionFact) (gs : List DetectionFact) → (f ≡ x) ⊎ In x gs → In x (insert_fact f gs)
unfolding insert_fact
In-insert_fact x f [] h = h
In-insert_fact x f (g ∷ gs) h = elim (Bool-cases (fact_ltb g f)) [
  | inr e ↦ rw e h
  | inl e ↦ rw e (elim h [
    | inl q ↦ inr (In-insert_fact x f gs (inl q))
    | inr (inl q) ↦ inl q
    | inr (inr q) ↦ inr (In-insert_fact x f gs (inr q))
  ])
]

In-sorted : (x : DetectionFact) (fs : List DetectionFact) → In x fs → In x (sorted fs)
unfolding sorted
In-sorted x [] h = elim h [ ]
In-sorted x (f ∷ fs) (inl e) = In-insert_fact x f (sorted fs) (inl e)
In-sorted x (f ∷ fs) (inr h) = In-insert_fact x f (sorted fs) (inr (In-sorted x fs h))

In-insert_id : (x i : ℕ) (js : List ℕ) → (i ≡ x) ⊎ In x js → In x (insert_id i js)
unfolding insert_id
In-insert_id x i [] h = h
In-insert_id x i (j ∷ js) h = elim (Bool-cases (ltb i j)) [
  | inl e ↦ rw e h
  | inr e ↦ elim (Bool-cases (i == j)) [
    | inl same ↦
        rw (e, same)
          (elim h [ inl q ↦ inl (subst (λ n. n ≡ x) ((==_iff i j).0 same) q) | inr q ↦ q ])
    | inr other ↦
        rw (e, other)
          (elim h [
            | inl q ↦ inr (In-insert_id x i js (inl q))
            | inr (inl q) ↦ inl q
            | inr (inr q) ↦ inr (In-insert_id x i js (inr q))
          ])
  ]
]

In-entities_of :
    (x : DetectionFact) (fs : List DetectionFact) → In x fs → In x.entity_id (entities_of fs)
unfolding entities_of
In-entities_of x [] h = elim h [ ]
In-entities_of x (f ∷ fs) (inl e) = In-insert_id x.entity_id f.entity_id _ (inl (rw e refl))
In-entities_of x (f ∷ fs) (inr h) =
    In-insert_id x.entity_id f.entity_id _ (inr (In-entities_of x fs h))

In-keep :
    (x : DetectionFact) (fs : List DetectionFact)
    → In x fs
    → In x (keep (λ f. f.entity_id == x.entity_id) fs)
In-keep x [] h = elim h [ ]
In-keep x (f ∷ fs) (inl e) =
    rw (subst (λ (y : DetectionFact). y.entity_id == x.entity_id ≡ true) (sym e) (ground arith))
      (inl e)
In-keep x (f ∷ fs) (inr h) = elim (Bool-cases (f.entity_id == x.entity_id)) [
  | inl e ↦ rw e (inr (In-keep x fs h))
  | inr e ↦ rw e (In-keep x fs h)
]

split_rows-InSome :
    (w : ℕ) (x : DetectionFact) (current rows : List DetectionFact)
    → In x current ⊎ In x rows
    → InSome x (split_rows w current rows)
unfolding split_rows close
split_rows-InSome w x [] [] (inl h) = elim h [ ]
split_rows-InSome w x [] [] (inr h) = elim h [ ]
split_rows-InSome w x (f ∷ fs) [] (inl h) = inl h
split_rows-InSome w x (f ∷ fs) [] (inr h) = elim h [ ]
split_rows-InSome w x current (row ∷ rows) h = elim (Bool-cases (is_gap w (last_of current) row)) [
  | inl e ↦ rw e (elim h [
    | inl q ↦ inl q
    | inr (inl q) ↦ inr (split_rows-InSome w x (row ∷ []) rows (inl (inl q)))
    | inr (inr q) ↦ inr (split_rows-InSome w x (row ∷ []) rows (inr q))
  ])
  | inr e ↦ rw e (
      split_rows-InSome w x (current ++ (row ∷ [])) rows (elim h [
        | inl q ↦ inl (In-append x current (row ∷ []) (inl q))
        | inr (inl q) ↦ inl (In-append x current (row ∷ []) (inr (inl q)))
        | inr (inr q) ↦ inr q
      ]))
]

cluster_entities-InSome :
    (w : ℕ) (x : DetectionFact) (ids : List ℕ) (facts : List DetectionFact)
    → In x.entity_id ids
    → In x facts
    → InSome x (cluster_entities w ids facts)
unfolding cluster_entities
cluster_entities-InSome w x [] facts q h = elim q [ ]
cluster_entities-InSome w x (i ∷ ids) facts (inl e) h = InSome-append x _ _ (
    inl (
      split_rows-InSome w x [] (keep (λ f. f.entity_id == i) facts)
        (inr (subst (λ n. In x (keep (λ f. f.entity_id == n) facts)) (sym e) (In-keep x facts h)))))
cluster_entities-InSome w x (i ∷ ids) facts (inr q) h =
    InSome-append x _ _ (inr (cluster_entities-InSome w x ids facts q h))

-- Every cluster has at least one detection, all of its detections are of one entity, and each lies at
-- most the window after the one before it; and every detection that is given stands in a cluster.
pub cluster_by_entity_and_time_lem :
    (facts : List DetectionFact) (w : ℕ) (x : DetectionFact)
    → In x facts
    → All (IsCluster w) (cluster_by_entity_and_time facts w)
      × InSome x (cluster_by_entity_and_time facts w)
unfolding cluster_by_entity_and_time
cluster_by_entity_and_time_lem facts w x h = (
  cluster_by_entity_and_time-IsCluster facts w,
  cluster_entities-InSome w x (entities_of (sorted facts)) (sorted facts)
      (In-entities_of x (sorted facts) (In-sorted x facts h)) (In-sorted x facts h),
)
