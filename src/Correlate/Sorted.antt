-- ===== src/Correlate/Sorted.antt =====
-- The order in which src/app/correlation/rules.py visits detections and entities.
use sentraxis.Prelude.{
  ℕ, ◌≤◌, ◌<◌, ◌≡◌, ◌⊎◌, inl, inr, true, false, List, [], ◌∷◌, ltb, ◌==◌, ==_iff, keep, All,
  All-map, arith, Bool-cases,
}
use sentraxis.Correlate.Rules.{DetectionFact, fact_ltb, insert_fact, sorted, insert_id, entities_of}

-- By entity, and for one entity by time.
abbrev pub IsBefore : DetectionFact → DetectionFact → Type 0
IsBefore f g =
    (f.entity_id < g.entity_id) ⊎ ((f.entity_id ≡ g.entity_id) × (f.event_ts ≤ g.event_ts))

abbrev pub AreOrdered : List DetectionFact → Type 0
AreOrdered [] = Unit
AreOrdered (f ∷ fs) = All (IsBefore f) fs × AreOrdered fs

IsBefore-trans : (f g h : DetectionFact) → IsBefore f g → IsBefore g h → IsBefore f h
IsBefore-trans f g h (inl a) (inl b) = inl (omega arith)
IsBefore-trans f g h (inl a) (inr (b, c)) = inl (omega arith)
IsBefore-trans f g h (inr (a, b)) (inl c) = inl (omega arith)
IsBefore-trans f g h (inr (a, b)) (inr (c, d)) = inr (omega arith, omega arith)

fact_ltb-IsBefore : (f g : DetectionFact) → fact_ltb f g ≡ true → IsBefore f g
unfolding fact_ltb
fact_ltb-IsBefore f g e = elim (Bool-cases (ltb f.entity_id g.entity_id)) [
  | inl less ↦ inl (ground arith)
  | inr more ↦ inr (ground arith, ground arith)
]

fact_geb-IsBefore : (f g : DetectionFact) → fact_ltb g f ≡ false → IsBefore f g
unfolding fact_ltb
fact_geb-IsBefore f g e = elim (Bool-cases (ltb f.entity_id g.entity_id)) [
  | inl less ↦ inl (ground arith)
  | inr more ↦ inr (ground arith, ground arith)
]

insert_fact-every :
    (P : DetectionFact → Type 0) (f : DetectionFact) (gs : List DetectionFact)
    → P f
    → All P gs
    → All P (insert_fact f gs)
unfolding insert_fact
insert_fact-every P f [] p all = (p, tt)
insert_fact-every P f (g ∷ gs) p (q, qs) = elim (Bool-cases (fact_ltb g f)) [
  | inl e ↦ rw e (q, insert_fact-every P f gs p qs)
  | inr e ↦ rw e (p, (q, qs))
]

insert_fact-AreOrdered :
    (f : DetectionFact) (gs : List DetectionFact) → AreOrdered gs → AreOrdered (insert_fact f gs)
unfolding insert_fact
insert_fact-AreOrdered f [] o = (tt, tt)
insert_fact-AreOrdered f (g ∷ gs) (b, o) = elim (Bool-cases (fact_ltb g f)) [
  | inl e ↦ rw e (
    insert_fact-every (IsBefore g) f gs (fact_ltb-IsBefore g f e) b,
    insert_fact-AreOrdered f gs o,
  )
  | inr e ↦
      let fg = fact_geb-IsBefore f g e in
      rw e ((fg, All-map (λ h gh. IsBefore-trans f g h fg gh) gs b), (b, o))
]

pub sorted-AreOrdered : (fs : List DetectionFact) → AreOrdered (sorted fs)
unfolding sorted
sorted-AreOrdered [] = tt
sorted-AreOrdered (f ∷ fs) = insert_fact-AreOrdered f (sorted fs) (sorted-AreOrdered fs)

-- The rows of one entity rise in time.
abbrev pub AreRising : List DetectionFact → Type 0
AreRising [] = Unit
AreRising (f ∷ fs) = All (λ (g : DetectionFact). f.event_ts ≤ g.event_ts) fs × AreRising fs

later_kept :
    (i : ℕ) (f : DetectionFact) (fs : List DetectionFact)
    → f.entity_id ≡ i
    → All (IsBefore f) fs
    → All (λ (g : DetectionFact). f.event_ts ≤ g.event_ts) (keep (λ g. g.entity_id == i) fs)
later_kept i f [] e all = tt
later_kept i f (g ∷ fs) e (b, all) = elim (Bool-cases (g.entity_id == i)) [
  | inl q ↦ rw q (at_same b ((==_iff g.entity_id i).0 q), later_kept i f fs e all)
  | inr q ↦ rw q (later_kept i f fs e all)
]
  where
    at_same : IsBefore f g → g.entity_id ≡ i → f.event_ts ≤ g.event_ts
    at_same (inl less) q = absurd (omega arith)
    at_same (inr (same, le)) q = le

pub keep-AreRising :
    (i : ℕ) (fs : List DetectionFact) → AreOrdered fs → AreRising (keep (λ f. f.entity_id == i) fs)
keep-AreRising i [] o = tt
keep-AreRising i (f ∷ fs) (b, o) = elim (Bool-cases (f.entity_id == i)) [
  | inl q ↦ rw q (later_kept i f fs ((==_iff f.entity_id i).0 q) b, keep-AreRising i fs o)
  | inr q ↦ rw q (keep-AreRising i fs o)
]

-- The entities rise, each once.
abbrev pub AreStrict : List ℕ → Type 0
AreStrict [] = Unit
AreStrict (i ∷ is') = All (λ j. i < j) is' × AreStrict is'

insert_id-every : (P : ℕ → Type 0) (i : ℕ) (js : List ℕ) → P i → All P js → All P (insert_id i js)
unfolding insert_id
insert_id-every P i [] p all = (p, tt)
insert_id-every P i (j ∷ js) p (q, qs) = elim (Bool-cases (ltb i j)) [
  | inl e ↦ rw e (p, (q, qs))
  | inr e ↦ elim (Bool-cases (i == j)) [
    | inl same ↦ rw (e, same) (q, qs)
    | inr other ↦ rw (e, other) (q, insert_id-every P i js p qs)
  ]
]

insert_id-AreStrict : (i : ℕ) (js : List ℕ) → AreStrict js → AreStrict (insert_id i js)
unfolding insert_id
insert_id-AreStrict i [] s = (tt, tt)
insert_id-AreStrict i (j ∷ js) (b, s) = elim (Bool-cases (ltb i j)) [
  | inl e ↦ rw e ((ground arith, All-map (λ k q. less k e q) js b), (b, s))
  | inr e ↦ elim (Bool-cases (i == j)) [
    | inl same ↦ rw (e, same) (b, s)
    | inr other ↦
        rw (e, other)
          (insert_id-every (λ k. j < k) i js (ground arith) b, insert_id-AreStrict i js s)
  ]
]
  where
    less : (k : ℕ) → ltb i j ≡ true → j < k → i < k
    less k e q = ground arith

pub entities_of-AreStrict : (fs : List DetectionFact) → AreStrict (entities_of fs)
unfolding entities_of
entities_of-AreStrict [] = tt
entities_of-AreStrict (f ∷ fs) =
    insert_id-AreStrict f.entity_id (entities_of fs) (entities_of-AreStrict fs)
