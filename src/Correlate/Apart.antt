-- ===== src/Correlate/Apart.antt =====
-- The clusters of src/app/correlation/rules.py: what lies within one, and between two.
use sentraxis.Prelude.{
  ℕ, ◌+◌, ◌*◌, ◌≤◌, ◌<◌, ◌≡◌, ◌≢◌, refl, subst, sym, ◌∙◌, ◌⊎◌, inl, inr, true, false, List, [], ◌∷◌,
  ◌++◌, ◌==◌, ==_iff, keep, All, All-map, All-append, arith, Bool-cases,
}
use sentraxis.Detect.Base.{second}
use sentraxis.Correlate.Rules.{
  DetectionFact, last_of, is_gap, close, split_rows, entities_of, cluster_entities,
  cluster_by_entity_and_time, sorted,
}
use sentraxis.Correlate.Sorted.{
  AreRising, keep-AreRising, sorted-AreOrdered, AreOrdered, AreStrict, entities_of-AreStrict,
}
use sentraxis.Correlate.Covers.{In, InSome, All-every, cluster_by_entity_and_time_lem}
use sentraxis.Correlate.Members.{cluster_by_entity_and_time-All}

-- Each fact lies behind the one before it, by at most a window.
abbrev pub IsSpan : ℕ → List DetectionFact → Type 0
IsSpan w [] = Unit
IsSpan w (f ∷ []) = Unit
IsSpan w (f ∷ g ∷ gs) =
    (f.event_ts ≤ g.event_ts) × (g.event_ts ≤ f.event_ts + w * second) × IsSpan w (g ∷ gs)

abbrev pub OfEntity : ℕ → List DetectionFact → Type 0
OfEntity i c = All (λ (f : DetectionFact). f.entity_id ≡ i) c

-- At least one fact, all of one entity, in a span.
abbrev pub IsChain : ℕ → List DetectionFact → Type 0
IsChain w c = (c ≢ []) × IsSpan w c × ((entity : ℕ) × OfEntity entity c)

-- The fact is of a later entity, or more than a window behind.
abbrev pub IsBeyond : ℕ → DetectionFact → DetectionFact → Type 0
IsBeyond w l f =
    (l.entity_id < f.entity_id)
    ⊎ ((l.entity_id ≡ f.entity_id) × (l.event_ts + w * second < f.event_ts))

-- Between the last fact of a list and the first of another.
abbrev pub IsCut : ℕ → List DetectionFact → List DetectionFact → Type 0
IsCut w c [] = Unit
IsCut w [] (f ∷ fs) = Unit
IsCut w (l ∷ []) (f ∷ fs) = IsBeyond w l f
IsCut w (k ∷ l ∷ ls) (f ∷ fs) = IsCut w (l ∷ ls) (f ∷ fs)

abbrev pub AreApart : ℕ → List (List DetectionFact) → Type 0
AreApart w [] = Unit
AreApart w (c ∷ []) = Unit
AreApart w (c ∷ d ∷ ds) = IsCut w c d × AreApart w (d ∷ ds)

-- The rows lie behind the last fact of the cluster.
Follows : List DetectionFact → List DetectionFact → Type 0
Follows [] rows = Unit
Follows (f ∷ []) rows = All (λ (r : DetectionFact). f.event_ts ≤ r.event_ts) rows
Follows (f ∷ g ∷ gs) rows = Follows (g ∷ gs) rows

snoc-IsSpan :
    (w : ℕ) (current : List DetectionFact) (row : DetectionFact) (rows : List DetectionFact)
    → IsSpan w current
    → Follows current (row ∷ rows)
    → is_gap w (last_of current) row ≡ false
    → IsSpan w (current ++ (row ∷ []))
unfolding is_gap last_of Follows
snoc-IsSpan w [] row rows c b e = tt
snoc-IsSpan w (f ∷ []) row rows c (b, _) e = (b, ground arith, tt)
snoc-IsSpan w (f ∷ g ∷ gs) row rows (x, y, c) b e = (x, y, snoc-IsSpan w (g ∷ gs) row rows c b e)

snoc-Follows :
    (current : List DetectionFact) (row : DetectionFact) (rows : List DetectionFact)
    → All (λ (r : DetectionFact). row.event_ts ≤ r.event_ts) rows
    → Follows (current ++ (row ∷ [])) rows
unfolding Follows
snoc-Follows [] row rows h = h
snoc-Follows (f ∷ []) row rows h = h
snoc-Follows (f ∷ g ∷ gs) row rows h = snoc-Follows (g ∷ gs) row rows h

gap-IsCut :
    (w i : ℕ) (current : List DetectionFact) (row : DetectionFact) (more : List DetectionFact)
    → is_gap w (last_of current) row ≡ true
    → OfEntity i current
    → row.entity_id ≡ i
    → (current ≢ []) × IsCut w current (row ∷ more)
unfolding is_gap last_of
gap-IsCut w i [] row more e o q = cc
gap-IsCut w i (f ∷ []) row more e (o, _) q = ((λ p. cc), inr (o ∙ sym q, ground arith))
gap-IsCut w i (f ∷ g ∷ gs) row more e (_, o) q =
    ((λ p. cc), (gap-IsCut w i (g ∷ gs) row more e o q).1)

-- The first of the clusters begins with the fact.
abbrev StartsWith : DetectionFact → List (List DetectionFact) → Type 0
StartsWith f cs =
    (tl : List DetectionFact) × (rest : List (List DetectionFact)) × (cs ≡ (f ∷ tl) ∷ rest)

split_rows-StartsWith :
    (w : ℕ) (f : DetectionFact) (fs rows : List DetectionFact)
    → StartsWith f (split_rows w (f ∷ fs) rows)
unfolding split_rows close
split_rows-StartsWith w f fs [] = (fs, [], refl)
split_rows-StartsWith w f fs (row ∷ rows) = elim (Bool-cases (is_gap w (last_of (f ∷ fs)) row)) [
  | inl e ↦ rw e (fs, _, refl)
  | inr e ↦ rw e (split_rows-StartsWith w f (fs ++ (row ∷ [])) rows)
]

AreApart-cons :
    (w : ℕ) (c : List DetectionFact) (f : DetectionFact) (cs : List (List DetectionFact))
    → StartsWith f cs
    → ((tl : List DetectionFact) → IsCut w c (f ∷ tl))
    → AreApart w cs
    → AreApart w (c ∷ cs)
AreApart-cons w c f cs (tl, rest, e) cut a =
    subst (λ x. AreApart w (c ∷ x)) (sym e) (cut tl, subst (λ x. AreApart w x) e a)

abbrev Split : ℕ → ℕ → List (List DetectionFact) → Type 0
Split w i cs = All (λ c. (c ≢ []) × IsSpan w c × OfEntity i c) cs × AreApart w cs

split_rows-Split :
    (w i : ℕ) (current rows : List DetectionFact)
    → IsSpan w current
    → OfEntity i current
    → OfEntity i rows
    → Follows current rows
    → AreRising rows
    → Split w i (split_rows w current rows)
unfolding split_rows close Follows
split_rows-Split w i [] [] c oc r b a = (tt, tt)
split_rows-Split w i (f ∷ fs) [] c oc r b a = ((((λ e. cc), c, oc), tt), tt)
split_rows-Split w i current (row ∷ rows) c oc (r, rs) b (a, as') =
    elim (Bool-cases (is_gap w (last_of current) row)) [
      | inl gap ↦
          let (all, apart) = split_rows-Split w i (row ∷ []) rows tt (r, tt) rs a as' in
          rw gap (
            (((gap-IsCut w i current row [] gap oc r).0, c, oc), all),
            AreApart-cons w current row _ (split_rows-StartsWith w row [] rows)
                (λ tl. (gap-IsCut w i current row tl gap oc r).1) apart,
          )
      | inr none' ↦ rw none' (
          split_rows-Split w i (current ++ (row ∷ [])) rows
            (snoc-IsSpan w current row rows c b none') (All-append _ current (row ∷ []) oc (r, tt))
            rs (snoc-Follows current row rows a) as')
    ]

keep-OfEntity :
    (i : ℕ) (facts : List DetectionFact) → OfEntity i (keep (λ f. f.entity_id == i) facts)
keep-OfEntity i [] = tt
keep-OfEntity i (f ∷ fs) = elim (Bool-cases (f.entity_id == i)) [
  | inl e ↦ rw e ((==_iff f.entity_id i).0 e, keep-OfEntity i fs)
  | inr e ↦ rw e (keep-OfEntity i fs)
]

-- A cluster of an entity behind the given one.
abbrev IsLater : ℕ → List DetectionFact → Type 0
IsLater i c = (j : ℕ) × (i < j) × OfEntity j c

later-IsCut : (w i : ℕ) (c d : List DetectionFact) → OfEntity i c → IsLater i d → IsCut w c d
later-IsCut w i c [] o l = tt
later-IsCut w i [] (f ∷ fs) o l = tt
later-IsCut w i (g ∷ []) (f ∷ fs) (o, _) (j, less, (q, _)) = inl (omega arith)
later-IsCut w i (g ∷ h ∷ hs) (f ∷ fs) (_, o) l = later-IsCut w i (h ∷ hs) (f ∷ fs) o l

AreApart-append :
    (w i : ℕ) (cs ds : List (List DetectionFact))
    → Split w i cs
    → All (IsLater i) ds
    → AreApart w ds
    → AreApart w (cs ++ ds)
AreApart-append w i [] ds s l a = a
AreApart-append w i (c ∷ []) [] s l a = tt
AreApart-append w i (c ∷ []) (d ∷ ds) (((_, _, o), _), _) (l, _) a = (later-IsCut w i c d o l, a)
AreApart-append w i (c ∷ c' ∷ cs) ds ((_, all), (cut, apart)) l a =
    (cut, AreApart-append w i (c' ∷ cs) ds (all, apart) l a)

cluster_entities-IsLater :
    (w i : ℕ) (ids : List ℕ) (facts : List DetectionFact)
    → All (λ j. i < j) ids
    → AreOrdered facts
    → All (IsLater i) (cluster_entities w ids facts)
unfolding cluster_entities Follows
cluster_entities-IsLater w i [] facts b o = tt
cluster_entities-IsLater w i (j ∷ ids) facts (less, b) o =
    All-append (IsLater i) _ _
      (All-map (λ c s. later c s) _
        (split_rows-Split w j [] (keep (λ f. f.entity_id == j) facts) tt tt (keep-OfEntity j facts)
          tt (keep-AreRising j facts o)).0)
      (cluster_entities-IsLater w i ids facts b o)
  where
    later : (c : List DetectionFact) → (c ≢ []) × IsSpan w c × OfEntity j c → IsLater i c
    later c (_, _, q) = (j, less, q)

cluster_entities-AreApart :
    (w : ℕ) (ids : List ℕ) (facts : List DetectionFact)
    → AreStrict ids
    → AreOrdered facts
    → All (IsChain w) (cluster_entities w ids facts) × AreApart w (cluster_entities w ids facts)
unfolding cluster_entities Follows
cluster_entities-AreApart w [] facts s o = (tt, tt)
cluster_entities-AreApart w (i ∷ ids) facts (b, s) o =
    let split =
      split_rows-Split w i [] (keep (λ f. f.entity_id == i) facts) tt tt (keep-OfEntity i facts) tt
        (keep-AreRising i facts o) in
    let (all, apart) = cluster_entities-AreApart w ids facts s o in
    (
      All-append (IsChain w) _ _ (All-map (λ c q. chain c q) _ split.0) all,
      AreApart-append w i _ _ split (cluster_entities-IsLater w i ids facts b o) apart,
    )
  where
    chain : (c : List DetectionFact) → (c ≢ []) × IsSpan w c × OfEntity i c → IsChain w c
    chain c (x, y, q) = (x, y, (i, q))

-- Every cluster has at least one detection, all of one entity, each not before and at most the window
-- after the one before it. A cluster begins at a later entity than the one before it, or more than the
-- window behind its last detection. Every detection that is given stands in a cluster, and no other.
pub cluster_by_entity_and_time-AreApart :
    (facts : List DetectionFact) (w : ℕ)
    → let clusters = cluster_by_entity_and_time facts w in
      All (IsChain w) clusters
      × AreApart w clusters
      × All (λ x. InSome x clusters) facts
      × All (All (λ x. In x facts)) clusters
unfolding cluster_by_entity_and_time
cluster_by_entity_and_time-AreApart facts w =
    let (all, apart) =
      cluster_entities-AreApart w (entities_of (sorted facts)) (sorted facts)
        (entities_of-AreStrict (sorted facts)) (sorted-AreOrdered facts) in
    (
      all,
      apart,
      All-every (λ x. InSome x (cluster_by_entity_and_time facts w)) facts
          (λ x h. (cluster_by_entity_and_time_lem facts w x h).1),
      cluster_by_entity_and_time-All (λ x. In x facts) facts w
          (All-every (λ x. In x facts) facts (λ x h. h)),
    )
