-- ===== src/Correlate/Pending.antt =====
-- The detections behind the cursor of src/app/workers/correlator.py, in the order of their ids.
use sentraxis.Prelude.{
  ℕ, zero, suc, ◌≤◌, ◌<◌, ◌≡◌, refl, ◌⊎◌, inl, inr, sym, subst, Bool, true, List, [], ◌∷◌, ltb,
  keep, take, length, All, arith, Bool-cases,
}
use sentraxis.Correlate.Covers.{In, All-at}
use sentraxis.Correlate.Facts.{CandidateRow}

-- The primary key, in its order.
abbrev pub IsOrdered : List CandidateRow → Type 0
IsOrdered [] = Unit
IsOrdered (r ∷ rs) = All (λ (s : CandidateRow). r.id < s.id) rs × IsOrdered rs

abbrev pub behind : ℕ → List CandidateRow → List CandidateRow
behind c rs = keep (λ (r : CandidateRow). ltb c r.id) rs

module _ (P : CandidateRow → Type 0) where
  pub keep-All : (t : CandidateRow → Bool) (rs : List CandidateRow) → All P rs → All P (keep t rs)
  keep-All t [] all = tt
  keep-All t (r ∷ rs) (p, all) = elim (Bool-cases (t r)) [
    | inl e ↦ rw e (p, keep-All t rs all)
    | inr e ↦ rw e (keep-All t rs all)
  ]

  pub take-All : (n : ℕ) (rs : List CandidateRow) → All P rs → All P (take n rs)
  take-All zero rs all = tt
  take-All (suc n) [] all = tt
  take-All (suc n) (r ∷ rs) (p, all) = (p, take-All n rs all)

pub keep-test :
    (t : CandidateRow → Bool) (rs : List CandidateRow)
    → All (λ (r : CandidateRow). t r ≡ true) (keep t rs)
keep-test t [] = tt
keep-test t (r ∷ rs) = elim (Bool-cases (t r)) [
  | inl e ↦ rw e (e, keep-test t rs)
  | inr e ↦ rw e (keep-test t rs)
]

pub keep-IsOrdered :
    (t : CandidateRow → Bool) (rs : List CandidateRow) → IsOrdered rs → IsOrdered (keep t rs)
keep-IsOrdered t [] o = tt
keep-IsOrdered t (r ∷ rs) (first, o) = elim (Bool-cases (t r)) [
  | inl e ↦ rw e (keep-All (λ (s : CandidateRow). r.id < s.id) t rs first, keep-IsOrdered t rs o)
  | inr e ↦ rw e (keep-IsOrdered t rs o)
]

pub In-keep :
    (t : CandidateRow → Bool) (rs : List CandidateRow) (x : CandidateRow)
    → In x rs
    → t x ≡ true
    → In x (keep t rs)
In-keep t [] x h e = elim h [ ]
In-keep t (r ∷ rs) x (inl q) e = rw (subst (λ y. t y ≡ true) (sym q) e) (inl q)
In-keep t (r ∷ rs) x (inr h) e = elim (Bool-cases (t r)) [
  | inl q ↦ rw q (inr (In-keep t rs x h e))
  | inr q ↦ rw q (In-keep t rs x h e)
]

-- A row is in the batch, or comes after all of it.
pub take-or-after :
    (n : ℕ) (rs : List CandidateRow) (x : CandidateRow)
    → IsOrdered rs
    → In x rs
    → In x (take n rs) ⊎ All (λ (r : CandidateRow). r.id < x.id) (take n rs)
take-or-after zero rs x o h = inr tt
take-or-after (suc n) [] x o h = elim h [ ]
take-or-after (suc n) (r ∷ rs) x (first, o) (inl q) = inl (inl q)
take-or-after (suc n) (r ∷ rs) x (first, o) (inr h) = elim (take-or-after n rs x o h) [
  | inl q ↦ inl (inr q)
  | inr q ↦ inr (All-at (λ (s : CandidateRow). r.id < s.id) rs x first h, q)
]

length-behind_le :
    (c d : ℕ) (rs : List CandidateRow) → c ≤ d → length (behind d rs) ≤ length (behind c rs)
length-behind_le c d [] le = omega arith
length-behind_le c d (r ∷ rs) le = ground (arith, length-behind_le c d rs)

-- Moving the cursor past a row leaves fewer behind it.
pub length-behind_lt :
    (c d : ℕ) (rs : List CandidateRow) (x : CandidateRow)
    → In x rs
    → c < x.id
    → x.id ≤ d
    → length (behind d rs) < length (behind c rs)
length-behind_lt c d [] x h a b = elim h [ ]
length-behind_lt c d (r ∷ rs) x (inl q) a b =
    let same = subst (λ (y : CandidateRow). r.id ≡ y.id) q refl in
    ground (arith, same, length-behind_le c d rs (omega arith))
length-behind_lt c d (r ∷ rs) x (inr h) a b = ground (arith, length-behind_lt c d rs x h a b)
