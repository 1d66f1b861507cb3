-- ===== src/Correlate/Draft.antt =====
-- build_incident_draft of src/app/correlation/rules.py. Scores and risks are ten-thousandths, so
-- that rounding to four places does nothing; the two f-strings are arguments.
use sentraxis.Prelude.{
  ℕ, suc, ◌+◌, ◌-◌, ◌*◌, ◌≤◌, ◌≡◌, ◌≢◌, refl, min, max, Option, none, some, List, [], ◌∷◌, String,
  Text, codes, str_eq, leb, length, All, All-map, arith, if◌then◌else◌,
}
use sentraxis.Ingest.Repository.{text_ltb}
use sentraxis.Correlate.Rules.{DetectionFact}

pub record IncidentDraft : Type 0 where
  pub entity_id : ℕ
  pub title : Text
  pub narrative : Text
  pub risk_score : ℕ
  pub first_seen_at : ℕ
  pub last_seen_at : ℕ
  pub detection_count : ℕ
  pub detection_ids : List ℕ
  pub distinct_detectors : List String

-- `sorted` of a set of texts, and of a list of numbers, one element at a time.
unfoldable pub insert_name : String → List String → List String
insert_name s [] = s ∷ []
insert_name s (t ∷ ts) =
    let rest = insert_name s ts in
    if str_eq s t then t ∷ ts else if text_ltb (codes s) (codes t) then s ∷ t ∷ ts else t ∷ rest

unfoldable pub distinct_names : List DetectionFact → List String
distinct_names [] = []
distinct_names (f ∷ fs) = insert_name f.detector (distinct_names fs)

unfoldable pub insert_number : ℕ → List ℕ → List ℕ
insert_number i [] = i ∷ []
insert_number i (j ∷ js) = let rest = insert_number i js in if leb i j then i ∷ j ∷ js else j ∷ rest

unfoldable pub sorted_ids : List DetectionFact → List ℕ
sorted_ids [] = []
sorted_ids (f ∷ fs) = insert_number f.detection_id (sorted_ids fs)

-- `max(...)` and `min(...)` over a cluster that begins with the given value.
unfoldable pub max_score : ℕ → List DetectionFact → ℕ
max_score m [] = m
max_score m (f ∷ fs) = max f.score (max_score m fs)

unfoldable pub first_ts : ℕ → List DetectionFact → ℕ
first_ts m [] = m
first_ts m (f ∷ fs) = min f.event_ts (first_ts m fs)

unfoldable pub last_ts : ℕ → List DetectionFact → ℕ
last_ts m [] = m
last_ts m (f ∷ fs) = max f.event_ts (last_ts m fs)

unfoldable pub risk_of : ℕ → ℕ → ℕ
risk_of score detectors = min 10000 (score + 1500 * (detectors - 1))

module _ (title_of : ℕ → List String → Text) (narrative_of : ℕ → ℕ → ℕ → ℕ → Text) where
  unfoldable pub draft_of : DetectionFact → List DetectionFact → IncidentDraft
  draft_of f fs =
      let cluster = f ∷ fs in
      let detectors = distinct_names cluster in
      let first_seen = first_ts f.event_ts fs in
      let last_seen = last_ts f.event_ts fs in
      record {
        entity_id = f.entity_id;
        title = title_of f.entity_id detectors;
        narrative = narrative_of (length cluster) (length detectors) first_seen last_seen;
        risk_score = risk_of (max_score f.score fs) (length detectors);
        first_seen_at = first_seen;
        last_seen_at = last_seen;
        detection_count = length cluster;
        detection_ids = sorted_ids cluster;
        distinct_detectors = detectors;
      }

  -- `max` of nothing raises, which is `none`.
  unfoldable pub build_incident_draft : List DetectionFact → Option IncidentDraft
  build_incident_draft [] = none
  build_incident_draft (f ∷ fs) = some (draft_of f fs)

length-insert_number : (i : ℕ) (js : List ℕ) → length (insert_number i js) ≡ suc (length js)
unfolding insert_number
length-insert_number i [] = omega arith
length-insert_number i (j ∷ js) = ground (arith, length-insert_number i js)

length-sorted_ids : (fs : List DetectionFact) → length (sorted_ids fs) ≡ length fs
unfolding sorted_ids
length-sorted_ids [] = omega arith
length-sorted_ids (f ∷ fs) =
    omega (arith, length-insert_number f.detection_id (sorted_ids fs), length-sorted_ids fs)

-- The fact lies within the three extremes.
abbrev pub Within : ℕ → ℕ → ℕ → DetectionFact → Type 0
Within score first last f = (f.score ≤ score) × (first ≤ f.event_ts) × (f.event_ts ≤ last)

widen :
    (s s' a a' b b' : ℕ)
    → s ≤ s'
    → a' ≤ a
    → b ≤ b'
    → (f : DetectionFact) → Within s a b f
    → Within s' a' b' f
widen s s' a a' b b' x y z f (p, q, r) = (omega arith, omega arith, omega arith)

pub extremes :
    (s a b : ℕ) (fs : List DetectionFact)
    → (s ≤ max_score s fs)
      × (first_ts a fs ≤ a)
      × (b ≤ last_ts b fs)
      × All (Within (max_score s fs) (first_ts a fs) (last_ts b fs)) fs
unfolding max_score first_ts last_ts
extremes s a b [] = (omega arith, omega arith, omega arith, tt)
extremes s a b (f ∷ fs) =
    let (x, y, z, all) = extremes s a b fs in
    (
      omega arith,
      omega arith,
      omega arith,
      (
        (omega arith, omega arith, omega arith),
        All-map (widen _ _ _ _ _ _ (omega arith) (omega arith) (omega arith)) fs all,
      ),
    )

max_score_cap :
    (s : ℕ) (fs : List DetectionFact)
    → s ≤ 10000
    → All (λ (f : DetectionFact). f.score ≤ 10000) fs
    → max_score s fs ≤ 10000
unfolding max_score
max_score_cap s [] h all = h
max_score_cap s (f ∷ fs) h (x, all) = omega (arith, max_score_cap s fs h all)

-- Drafting an incident from a cluster with at least one detection, no score above one, succeeds: the
-- risk is at most one and at least every score, the times enclose every detection, and there is one
-- id for each detection.
pub build_incident_draft-Encloses :
    (title_of : ℕ → List String → Text) (narrative_of : ℕ → ℕ → ℕ → ℕ → Text)
    (cluster : List DetectionFact)
    → cluster ≢ []
    → All (λ (f : DetectionFact). f.score ≤ 10000) cluster
    → (d : IncidentDraft) × (build_incident_draft title_of narrative_of cluster ≡ some d)
      × (d.risk_score ≤ 10000)
      × All
          (λ (f : DetectionFact).
            (f.score ≤ d.risk_score)
            × (d.first_seen_at ≤ f.event_ts)
            × (f.event_ts ≤ d.last_seen_at))
          cluster
      × (d.detection_count ≡ length cluster)
      × (length d.detection_ids ≡ length cluster)
unfolding build_incident_draft draft_of risk_of
build_incident_draft-Encloses title_of narrative_of [] some' capped = absurd (some' refl)
build_incident_draft-Encloses title_of narrative_of (f ∷ fs) some' (cap, caps) =
    let (x, y, z, all) = extremes f.score f.event_ts f.event_ts fs in
    let top = max_score_cap f.score fs cap caps in
    (
      draft_of title_of narrative_of f fs,
      refl,
      omega arith,
      (
        (omega (arith, x, top), y, z),
        All-map (widen _ _ _ _ _ _ (omega (arith, top)) (omega arith) (omega arith)) fs all,
      ),
      refl,
      length-sorted_ids (f ∷ fs),
    )
