-- ===== src/Correlate/Drafted.antt =====
-- What build_incident_draft of src/app/correlation/rules.py makes of a cluster.
use sentraxis.Prelude.{
  ℕ, ◌+◌, ◌-◌, ◌*◌, ◌≤◌, ◌≡◌, ◌≢◌, refl, sym, ◌⊎◌, inl, inr, min, some, List, [], ◌∷◌, String, Text,
  leb, length, map, All, All-map, subst, arith, Bool-cases,
}
use mathlib.Core.List.{Perm}
use mathlib.Core.List.Perm
use sentraxis.Correlate.Rules.{DetectionFact}
use sentraxis.Correlate.Covers.{In}
use sentraxis.Correlate.Names.{AreDetectors, distinct_names-AreDetectors}
use sentraxis.Correlate.Draft.{
  IncidentDraft, insert_number, sorted_ids, max_score, risk_of, draft_of, build_incident_draft,
  build_incident_draft-Encloses, extremes, Within, first_ts, last_ts,
}

-- The highest score of the facts.
abbrev pub IsTop : ℕ → List DetectionFact → Type 0
IsTop top fs =
    ((f : DetectionFact) × In f fs × (f.score ≡ top))
    × All (λ (f : DetectionFact). f.score ≤ top) fs

max_score-attained :
    (s : ℕ) (fs : List DetectionFact)
    → (max_score s fs ≡ s) ⊎ ((f : DetectionFact) × In f fs × (f.score ≡ max_score s fs))
unfolding max_score
max_score-attained s [] = inl refl
max_score-attained s (f ∷ fs) = elim (Bool-cases (leb (max_score s fs) f.score)) [
  | inl above ↦ inr (f, inl refl, ground arith)
  | inr below ↦ elim (max_score-attained s fs) [
    | inl e ↦ inl (ground arith)
    | inr (g, i, e) ↦ inr (g, inr i, ground arith)
  ]
]

Perm-insert_number : (i : ℕ) (js : List ℕ) → Perm (insert_number i js) (i ∷ js)
unfolding insert_number
Perm-insert_number i [] = Perm.refl (i ∷ [])
Perm-insert_number i (j ∷ js) = elim (Bool-cases (leb i j)) [
  | inl e ↦ rw e (Perm.refl (i ∷ j ∷ js))
  | inr e ↦ rw e (Perm.trans (Perm.cons j (Perm-insert_number i js)) (Perm.swap i j js))
]

Perm-sorted_ids :
    (fs : List DetectionFact)
    → Perm (sorted_ids fs) (map (λ (f : DetectionFact). f.detection_id) fs)
unfolding sorted_ids
Perm-sorted_ids [] = Perm.refl []
Perm-sorted_ids (f ∷ fs) =
    Perm.trans (Perm-insert_number f.detection_id (sorted_ids fs))
      (Perm.cons f.detection_id (Perm-sorted_ids fs))

at_score :
    (s a b : ℕ) (fs : List DetectionFact) (g : DetectionFact)
    → Within (max_score s fs) (first_ts a fs) (last_ts b fs) g
    → g.score ≤ max_score s fs
at_score s a b fs g (p, _, _) = p

draft-IsTop : (f : DetectionFact) (fs : List DetectionFact) → IsTop (max_score f.score fs) (f ∷ fs)
draft-IsTop f fs = (
  elim (max_score-attained f.score fs) [
    | inl e ↦ (f, inl refl, sym e)
    | inr (g, i, e) ↦ (g, inr i, e)
  ],
  let (x, _, _, all) = extremes f.score f.event_ts f.event_ts fs in
      (x, All-map (λ (g : DetectionFact) w. at_score f.score f.event_ts f.event_ts fs g w) fs all),
)

-- The draft's risk and times enclose the fact.
abbrev pub Encloses : IncidentDraft → DetectionFact → Type 0
Encloses d f =
    (f.score ≤ d.risk_score) × (d.first_seen_at ≤ f.event_ts) × (f.event_ts ≤ d.last_seen_at)

enclosed :
    (title_of : ℕ → List String → Text) (narrative_of : ℕ → ℕ → ℕ → ℕ → Text) (f : DetectionFact)
    (fs : List DetectionFact)
    → All (λ (x : DetectionFact). x.score ≤ 10000) (f ∷ fs)
    → All (Encloses (draft_of title_of narrative_of f fs)) (f ∷ fs)
unfolding build_incident_draft
enclosed title_of narrative_of f fs capped =
    let (d, e, cap, all, _, _) =
      build_incident_draft-Encloses title_of narrative_of (f ∷ fs) (λ q. cc) capped in
    subst (λ (x : IncidentDraft). All (Encloses x) (f ∷ fs)) (same d e) all
  where
    same :
        (d : IncidentDraft)
        → some (draft_of title_of narrative_of f fs) ≡ some d
        → d ≡ draft_of title_of narrative_of f fs
    same d e = cc

-- Drafting an incident from a cluster with at least one detection, no score above one, succeeds. The
-- names are those of the cluster's detectors, each once; the risk is the highest score and 0.15 for
-- each detector behind the first, cut at one; the times enclose every detection; the ids are those of
-- the detections up to their order, and counted.
pub build_incident_draft_lem :
    (title_of : ℕ → List String → Text) (narrative_of : ℕ → ℕ → ℕ → ℕ → Text)
    (cluster : List DetectionFact)
    → cluster ≢ []
    → All (λ (f : DetectionFact). f.score ≤ 10000) cluster
    → (d : IncidentDraft) × (top : ℕ) × (build_incident_draft title_of narrative_of cluster
        ≡ some d)
      × AreDetectors d.distinct_detectors cluster
      × IsTop top cluster
      × (d.risk_score ≡ min 10000 (top + 1500 * (length d.distinct_detectors - 1)))
      × All (Encloses d) cluster
      × Perm d.detection_ids (map (λ (f : DetectionFact). f.detection_id) cluster)
      × (d.detection_count ≡ length cluster)
unfolding build_incident_draft draft_of risk_of
build_incident_draft_lem title_of narrative_of [] some' capped = absurd (some' refl)
build_incident_draft_lem title_of narrative_of (f ∷ fs) some' capped = (
  draft_of title_of narrative_of f fs,
  max_score f.score fs,
  refl,
  distinct_names-AreDetectors (f ∷ fs),
  draft-IsTop f fs,
  refl,
  enclosed title_of narrative_of f fs capped,
  Perm-sorted_ids (f ∷ fs),
  refl,
)
