-- ===== src/Correlate/Accepted.antt =====
-- What the output schema of src/app/correlation/agent.py lets through.
use sentraxis.Prelude.{
  ℤ, pos, negsuc, ℕ, suc, ◌+◌, ◌≤◌, ◌≡◌, ◌≢◌, refl, inl, inr, subst, Bool, true, false, List, [],
  ◌∷◌, Text, leb, leb→le, ◌==◌, ==_iff, any, all, length, All, arith, Bool-cases, if◌then◌else◌,
}
use sentraxis.Correlate.Attack.{Index, is_known_technique}
use sentraxis.Correlate.Covers.{In}
use sentraxis.Correlate.Analysis.{
  RawTechnique, RawAnalysis, TechniqueClaim, Analysis, Issue, Checked, valid, invalid, both,
  and_then, check_length, check_unit, is_allowed, max_confidence, check_evidence, check_risk,
  check_cited, normalize_claim, check_technique, check_each, check_techniques, check_analysis,
  model_validate,
}

module _ {A : Type 0} where
  valid-valid : {a b : A} → valid a ≡ valid b → a ≡ b
  valid-valid h = cc

  -- A test that lets a value through, or reports.
  if-valid :
      (c : Bool) (a b : A) (es : List Issue)
      → (if c then valid a else invalid es) ≡ valid b
      → (c ≡ true) × (a ≡ b)
  if-valid true a b es h = (refl, cc)
  if-valid false a b es h = cc

  if_not-valid :
      (c : Bool) (a b : A) (es : List Issue)
      → (if c then invalid es else valid a) ≡ valid b
      → (c ≡ false) × (a ≡ b)
  if_not-valid true a b es h = cc
  if_not-valid false a b es h = (refl, cc)

module _ {A B : Type 0} where
  both-valid :
      (x : Checked A) (y : Checked B) (c : A × B)
      → both x y ≡ valid c
      → (x ≡ valid c.0) × (y ≡ valid c.1)
  unfolding both
  both-valid (valid a) (valid b) c h = (cc, cc)
  both-valid (valid a) (invalid js) c h = cc
  both-valid (invalid es) (valid b) c h = cc
  both-valid (invalid es) (invalid js) c h = cc

  and_then-valid :
      (x : Checked A) (f : A → Checked B) (b : B)
      → and_then x f ≡ valid b
      → (a : A) × (x ≡ valid a) × (f a ≡ valid b)
  unfolding and_then
  and_then-valid (valid a) f b h = (a, refl, h)
  and_then-valid (invalid es) f b h = cc

check_length-valid :
    (least most : ℕ) (issue : Issue) (t t' : Text)
    → check_length least most issue t ≡ valid t'
    → (least ≤ length t') × (length t' ≤ most)
unfolding check_length
check_length-valid least most issue t t' h = ground arith

check_unit-valid : (issue : Issue) (z : ℤ) (n : ℕ) → check_unit issue z ≡ valid n → n ≤ 10000
unfolding check_unit
check_unit-valid issue (pos m) n h = ground arith
check_unit-valid issue (negsuc m) n h = cc

check_cited-valid :
    (is_digit : ℕ → Bool) (index : Index) (allowed : List ℕ) (id : Text) (es es' : List ℤ)
    → check_cited is_digit index allowed id es ≡ valid es'
    → es' ≢ []
unfolding check_cited
check_cited-valid is_digit index allowed id [] es' h = cc
check_cited-valid is_digit index allowed id (e ∷ es) es' h = cc

check_risk-valid :
    (a b : Analysis)
    → check_risk a ≡ valid b
    → (a ≡ b)
      × (a.risk_score ≤ max_confidence a.techniques + 5000)
      × (max_confidence a.techniques ≤ a.risk_score + 5000)
unfolding check_risk
check_risk-valid a b h =
    let (near, same) = if_not-valid _ a b _ h in (same, ground arith, ground arith)

-- The evidence names a detection of the incident.
abbrev pub IsEvidence : List ℕ → ℤ → Type 0
IsEvidence allowed e = (d : ℕ) × (e ≡ pos d) × In d allowed

any-In : (allowed : List ℕ) (n : ℕ) → any (λ m. m == n) allowed ≡ true → In n allowed
any-In [] n h = cc
any-In (m ∷ ms) n h = elim (Bool-cases (m == n)) [
  | inl e ↦ inl ((==_iff m n).0 e)
  | inr e ↦ inr (any-In ms n (ground arith))
]

is_allowed-IsEvidence :
    (allowed : List ℕ) (e : ℤ) → is_allowed allowed e ≡ true → IsEvidence allowed e
unfolding is_allowed
is_allowed-IsEvidence allowed (pos n) h = (n, refl, any-In allowed n h)
is_allowed-IsEvidence allowed (negsuc n) h = cc

all-IsEvidence :
    (allowed : List ℕ) (es : List ℤ)
    → all (is_allowed allowed) es ≡ true
    → All (IsEvidence allowed) es
all-IsEvidence allowed [] h = tt
all-IsEvidence allowed (e ∷ es) h =
    (is_allowed-IsEvidence allowed e (ground arith), all-IsEvidence allowed es (ground arith))

check_evidence-valid :
    (allowed : List ℕ) (ts : List TechniqueClaim) (u : Unit {0})
    → check_evidence allowed ts ≡ valid u
    → All (λ (t : TechniqueClaim). All (IsEvidence allowed) t.evidence_detection_ids) ts
unfolding check_evidence
check_evidence-valid allowed [] u h = tt
check_evidence-valid allowed (t ∷ ts) u h =
    elim (Bool-cases (all (is_allowed allowed) t.evidence_detection_ids)) [
      | inl e ↦ (
        all-IsEvidence allowed t.evidence_detection_ids e,
        check_evidence-valid allowed ts u (ground arith),
      )
      | inr e ↦ absurd (ground arith)
    ]

module _ (is_digit : ℕ → Bool) (index : Index) (allowed : List ℕ) where
  -- The technique is in the index, and cites detections.
  abbrev pub IsKnown : TechniqueClaim → Type 0
  IsKnown t =
      (is_known_technique index t.id ≡ true)
      × (t.confidence ≤ 10000)
      × (t.evidence_detection_ids ≢ [])

  normalize_claim-valid :
      (id name : Text) (confidence : ℕ) (evidence : List ℤ) (t : TechniqueClaim)
      → normalize_claim is_digit index allowed (id, (name, (confidence, evidence))) ≡ valid t
      → confidence ≤ 10000
      → evidence ≢ []
      → IsKnown t
  unfolding normalize_claim
  normalize_claim-valid id name confidence evidence t h le some' =
      let (known, same) = if-valid _ _ t _ h in subst IsKnown same (known, le, some')

  check_technique-valid :
      (t : RawTechnique) (c : TechniqueClaim)
      → check_technique is_digit index allowed t ≡ valid c
      → IsKnown c
  unfolding check_technique
  check_technique-valid t c h =
      let ((id, (name, (confidence, evidence))), fields, made) = and_then-valid _ _ c h in
      let (p, q) = both-valid _ _ _ fields in
      let (p', q') = both-valid _ _ _ q in
      let (p'', q'') = both-valid _ _ _ q' in
      normalize_claim-valid id name confidence evidence c made (check_unit-valid _ _ _ p'')
        (check_cited-valid is_digit index allowed _ _ _ q'')

  check_each-valid :
      (ts : List RawTechnique) (cs : List TechniqueClaim)
      → check_each is_digit index allowed ts ≡ valid cs
      → All IsKnown cs × (length cs ≡ length ts)
  unfolding check_each
  check_each-valid [] cs h = subst (λ l. All IsKnown l × (length l ≡ 0)) (valid-valid h) (tt, refl)
  check_each-valid (t ∷ ts) cs h =
      let (found, fields, made) = and_then-valid _ _ cs h in
      let (p, q) = both-valid _ _ _ fields in
      let (known, count) = check_each-valid ts found.1 q in
      subst (λ l. All IsKnown l × (length l ≡ suc (length ts))) (valid-valid made)
        ((check_technique-valid t found.0 p, known), omega (arith, count))

  check_techniques-valid :
      (ts : List RawTechnique) (cs : List TechniqueClaim)
      → check_techniques is_digit index allowed ts ≡ valid cs
      → All IsKnown cs × (1 ≤ length cs) × (length cs ≤ 5)
  unfolding check_techniques
  check_techniques-valid [] cs h = cc
  check_techniques-valid (t ∷ ts) cs h = elim (Bool-cases (leb (length (t ∷ ts)) 5)) [
    | inl e ↦
        let (known, count) = check_each-valid (t ∷ ts) cs (ground arith) in
        (known, omega (arith, count), omega (arith, count, leb→le _ _ e))
    | inr e ↦ absurd (ground arith)
  ]

  -- A technique of the index, with at least one cited detection, all of them of the incident.
  abbrev pub IsSupported : TechniqueClaim → Type 0
  IsSupported t = IsKnown t × All (IsEvidence allowed) t.evidence_detection_ids

  All-both :
      (ts : List TechniqueClaim)
      → All IsKnown ts
      → All (λ (t : TechniqueClaim). All (IsEvidence allowed) t.evidence_detection_ids) ts
      → All IsSupported ts
  All-both [] xs ys = tt
  All-both (t ∷ ts) (x, xs) (y, ys) = ((x, y), All-both ts xs ys)

  abbrev pub IsAccepted : Analysis → Type 0
  IsAccepted a =
      (8 ≤ length a.title)
      × (length a.title ≤ 120)
      × (20 ≤ length a.narrative)
      × (length a.narrative ≤ 700)
      × (a.risk_score ≤ 10000)
      × (1 ≤ length a.techniques)
      × (length a.techniques ≤ 5)
      × All IsSupported a.techniques
      × (a.risk_score ≤ max_confidence a.techniques + 5000)
      × (max_confidence a.techniques ≤ a.risk_score + 5000)

  pub model_validate-IsAccepted :
      (raw : RawAnalysis) (a : Analysis)
      → model_validate is_digit index allowed raw ≡ valid a
      → IsAccepted a
  unfolding model_validate check_analysis
  model_validate-IsAccepted raw a h =
      let ((title, (narrative, (risk, (confidence, techniques)))), fields, made) =
        and_then-valid _ _ a h in
      let (p, q) = both-valid _ _ _ fields in
      let (p', q') = both-valid _ _ _ q in
      let (p'', q'') = both-valid _ _ _ q' in
      let (p3, q3) = both-valid _ _ _ q'' in
      let (known, least, most) = check_techniques-valid _ _ q3 in
      let (u, cited, near) = and_then-valid _ _ a made in
      let (same, low, high) = check_risk-valid _ a near in
      let (t0, t1) = check_length-valid _ _ _ _ _ p in
      let (n0, n1) = check_length-valid _ _ _ _ _ p' in
      subst IsAccepted same (
        t0,
        t1,
        n0,
        n1,
        check_unit-valid _ _ _ p'',
        least,
        most,
        All-both techniques known (check_evidence-valid allowed techniques u cited),
        low,
        high,
      )
