-- ===== src/Correlate/Names.antt =====
-- The order of texts, and the detectors' names that src/app/correlation/rules.py sorts and keeps once.
use sentraxis.Prelude.{
  ◌≡◌, ◌≢◌, refl, ap₂, subst, sym, ◌∙◌, ◌⊎◌, inl, inr, true, false, List, [], ◌∷◌, String, Text,
  codes, str_eq, eq_iff, All, All-map, arith, Bool-cases,
}
use mathlib.Core.List.{head-eq_of_cons-eq, tail-eq_of_cons-eq}
use text.Mathlib.TextEquality.{Char-path}
use sentraxis.Ingest.Repository.{text_ltb}
use sentraxis.Correlate.Rules.{DetectionFact}
use sentraxis.Correlate.Draft.{insert_name, distinct_names}
use sentraxis.Correlate.Covers.{In}

codes_inj : (s t : String) → codes s ≡ codes t → s ≡ t
codes_inj String.[] String.[] e = refl
codes_inj String.[] (String.◌∷◌ d t) e = absurd (cc)
codes_inj (String.◌∷◌ c s) String.[] e = absurd (cc)
codes_inj (String.◌∷◌ c s) (String.◌∷◌ d t) e =
    ap₂ (λ x xs. String.◌∷◌ x xs) (Char-path c d (head-eq_of_cons-eq e))
      (codes_inj s t (tail-eq_of_cons-eq e))

text_ltb_irrefl : (t : Text) → text_ltb t t ≡ false
unfolding text_ltb
text_ltb_irrefl [] = refl
text_ltb_irrefl (c ∷ cs) = ground (arith, text_ltb_irrefl cs)

text_ltb_trans : (r s t : Text) → text_ltb r s ≡ true → text_ltb s t ≡ true → text_ltb r t ≡ true
unfolding text_ltb
text_ltb_trans [] [] t p q = cc
text_ltb_trans (c ∷ cs) [] t p q = cc
text_ltb_trans r (d ∷ ds) [] p q = cc
text_ltb_trans [] (d ∷ ds) (e ∷ es) p q = refl
text_ltb_trans (c ∷ cs) (d ∷ ds) (e ∷ es) p q = ground (arith, text_ltb_trans cs ds es)

text_ltb_total : (s t : Text) → text_ltb s t ≡ false → text_ltb t s ≡ false → s ≡ t
unfolding text_ltb
text_ltb_total [] [] p q = refl
text_ltb_total [] (d ∷ ds) p q = cc
text_ltb_total (c ∷ cs) [] p q = cc
text_ltb_total (c ∷ cs) (d ∷ ds) p q =
    let e : c ≡ d = ground arith in
    let r : text_ltb cs ds ≡ false = ground arith in
    let r' : text_ltb ds cs ≡ false = ground arith in
    ap₂ (λ x xs. x ∷ xs) e (text_ltb_total cs ds r r')

abbrev Before : String → String → Type 0
Before s t = text_ltb (codes s) (codes t) ≡ true

abbrev Ascending : List String → Type 0
Ascending [] = Unit
Ascending (s ∷ ts) = All (Before s) ts × Ascending ts

-- No name stands twice.
abbrev pub AreDistinct : List String → Type 0
AreDistinct [] = Unit
AreDistinct (s ∷ ts) = All (λ t. s ≢ t) ts × AreDistinct ts

insert_name-All :
    (P : String → Type 0) (s : String) (ts : List String)
    → P s
    → All P ts
    → All P (insert_name s ts)
unfolding insert_name
insert_name-All P s [] p all = (p, tt)
insert_name-All P s (t ∷ ts) p (q, qs) = elim (Bool-cases (str_eq s t)) [
  | inl same ↦ rw same (q, qs)
  | inr other ↦ elim (Bool-cases (text_ltb (codes s) (codes t))) [
    | inl less ↦ rw (other, less) (p, (q, qs))
    | inr more ↦ rw (other, more) (q, insert_name-All P s ts p qs)
  ]
]

flip : (s t : String) → str_eq s t ≡ false → text_ltb (codes s) (codes t) ≡ false → Before t s
flip s t other more = elim (Bool-cases (text_ltb (codes t) (codes s))) [
  | inl less ↦ less
  | inr none' ↦ absurd (differ (codes_inj s t (text_ltb_total (codes s) (codes t) more none')))
]
  where
    differ : s ≡ t → ⊥
    differ e = ground (arith, eq_iff s t)

insert_name-Ascending :
    (s : String) (ts : List String) → Ascending ts → Ascending (insert_name s ts)
unfolding insert_name
insert_name-Ascending s [] a = (tt, tt)
insert_name-Ascending s (t ∷ ts) (b, a) = elim (Bool-cases (str_eq s t)) [
  | inl same ↦ rw same (b, a)
  | inr other ↦ elim (Bool-cases (text_ltb (codes s) (codes t))) [
    | inl less ↦
        rw (other, less)
          (
            (less, All-map (λ u q. text_ltb_trans (codes s) (codes t) (codes u) less q) ts b),
            (b, a),
          )
    | inr more ↦
        rw (other, more)
          (insert_name-All (Before t) s ts (flip s t other more) b, insert_name-Ascending s ts a)
  ]
]

distinct_names-Ascending : (fs : List DetectionFact) → Ascending (distinct_names fs)
unfolding distinct_names
distinct_names-Ascending [] = tt
distinct_names-Ascending (f ∷ fs) =
    insert_name-Ascending f.detector (distinct_names fs) (distinct_names-Ascending fs)

Ascending-AreDistinct : (ts : List String) → Ascending ts → AreDistinct ts
Ascending-AreDistinct [] a = tt
Ascending-AreDistinct (s ∷ ts) (b, a) =
    (All-map (λ t q e. differ t q e) ts b, Ascending-AreDistinct ts a)
  where
    differ : (t : String) → Before s t → s ≡ t → ⊥
    differ t q e =
        let r = subst (λ x. Before s x) (sym e) q in let i = text_ltb_irrefl (codes s) in cc

In-insert_name : (x s : String) (ts : List String) → (s ≡ x) ⊎ In x ts → In x (insert_name s ts)
unfolding insert_name
In-insert_name x s [] h = h
In-insert_name x s (t ∷ ts) h = elim (Bool-cases (str_eq s t)) [
  | inl same ↦ rw same (elim h [ inl q ↦ inl (sym ((eq_iff s t).0 same) ∙ q) | inr q ↦ q ])
  | inr other ↦ elim (Bool-cases (text_ltb (codes s) (codes t))) [
    | inl less ↦ rw (other, less) h
    | inr more ↦
        rw (other, more)
          (elim h [
            | inl q ↦ inr (In-insert_name x s ts (inl q))
            | inr (inl q) ↦ inl q
            | inr (inr q) ↦ inr (In-insert_name x s ts (inr q))
          ])
  ]
]

-- The names are those of the facts' detectors, each once.
abbrev pub AreDetectors : List String → List DetectionFact → Type 0
AreDetectors names fs =
    AreDistinct names
    × (All (λ (f : DetectionFact). In f.detector names) fs
        × All (λ s. (f : DetectionFact) × In f fs × (f.detector ≡ s)) names)

In-distinct_names :
    (fs gs : List DetectionFact)
    → ((s : String) → In s (distinct_names gs) → In s (distinct_names fs))
    → All (λ (f : DetectionFact). In f.detector (distinct_names fs)) gs
unfolding distinct_names
In-distinct_names fs [] sub = tt
In-distinct_names fs (g ∷ gs) sub = (
  sub g.detector (In-insert_name g.detector g.detector (distinct_names gs) (inl refl)),
  In-distinct_names fs gs (λ s h. sub s (In-insert_name s g.detector (distinct_names gs) (inr h))),
)

distinct_names-from :
    (fs : List DetectionFact)
    → All (λ s. (f : DetectionFact) × In f fs × (f.detector ≡ s)) (distinct_names fs)
unfolding distinct_names
distinct_names-from [] = tt
distinct_names-from (f ∷ fs) =
    insert_name-All _ f.detector (distinct_names fs) (f, inl refl, refl)
      (All-map (λ s h. let (g, i, e) = h in (g, inr i, e)) (distinct_names fs)
        (distinct_names-from fs))

pub distinct_names-AreDetectors : (fs : List DetectionFact) → AreDetectors (distinct_names fs) fs
distinct_names-AreDetectors fs = (
  Ascending-AreDistinct (distinct_names fs) (distinct_names-Ascending fs),
  (In-distinct_names fs fs (λ s h. h), distinct_names-from fs),
)
