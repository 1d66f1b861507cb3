-- ===== src/Correlate/Analysis.antt =====
-- The output schema of src/app/correlation/agent.py. A number of the reply is an integer number of
-- ten-thousandths. `read_fields` is pydantic's reading of an object by the types of the fields,
-- `none` where one is missing, extra or of another type; `is_digit` is `\d` of its patterns.
use sentraxis.Prelude.{
  ℤ, pos, negsuc, ℕ, ◌+◌, ◌-◌, max, Bool, true, false, not, ◌&&◌, Option, none, some, List, [], ◌∷◌,
  ◌++◌, Text, leb, ltb, ◌==◌, any, all, keep, length, if◌then◌else◌,
}
use sentraxis.Correlate.Attack.{Index, technique_name, is_known_technique}

pub record RawTechnique : Type 0 where
  pub id : Text
  pub name : Text
  pub confidence : ℤ
  pub evidence_detection_ids : List ℤ

pub record RawAnalysis : Type 0 where
  pub title : Text
  pub narrative : Text
  pub risk_score : ℤ
  pub confidence_overall : ℤ
  pub techniques : List RawTechnique

pub record TechniqueClaim : Type 0 where
  pub id : Text
  pub name : Text
  pub confidence : ℕ
  pub evidence_detection_ids : List ℤ

pub record Analysis : Type 0 where
  pub title : Text
  pub narrative : Text
  pub risk_score : ℕ
  pub confidence_overall : ℕ
  pub techniques : List TechniqueClaim

-- One validation error.
pub data Issue : Type 0 where
  wrong_shape title_length narrative_length risk_range confidence_range : Issue
  id_pattern name_length technique_confidence no_evidence : Text → Issue
  too_many_techniques no_techniques : Issue
  not_in_allowlist : Text → Issue
  unknown_evidence : List ℤ → Issue
  inconsistent_risk : (risk max_confidence : ℕ) → Issue

pub data Checked (A : Type 0) : Type 0 where
  valid : A → Checked A
  invalid : List Issue → Checked A

-- The fields of a model are all checked, and the issues are collected in their order.
unfoldable pub both : {A B : Type 0} → Checked A → Checked B → Checked (A × B)
both (valid a) (valid b) = valid (a, b)
both (valid a) (invalid js) = invalid js
both (invalid is') (valid b) = invalid is'
both (invalid is') (invalid js) = invalid (is' ++ js)

unfoldable pub and_then : {A B : Type 0} → Checked A → (A → Checked B) → Checked B
and_then (valid a) f = f a
and_then (invalid is') f = invalid is'

-- `Field(min_length=..., max_length=...)` and `Field(ge=0.0, le=1.0)`
unfoldable pub check_length : (least most : ℕ) → Issue → Text → Checked Text
check_length least most issue t =
    if leb least (length t) && leb (length t) most then valid t else invalid (issue ∷ [])

unfoldable pub check_unit : Issue → ℤ → Checked ℕ
check_unit issue (pos n) = if leb n 10000 then valid n else invalid (issue ∷ [])
check_unit issue (negsuc n) = invalid (issue ∷ [])

unfoldable pub is_allowed : List ℕ → ℤ → Bool
is_allowed allowed (pos n) = any (λ m. m == n) allowed
is_allowed allowed (negsuc n) = false

-- `max((t.confidence for t in self.techniques), default=0.0)`
unfoldable pub max_confidence : List TechniqueClaim → ℕ
max_confidence [] = 0
max_confidence (t ∷ ts) = max t.confidence (max_confidence ts)

-- `_evidence_and_consistency`: the first technique that cites another detection is reported.
unfoldable pub check_evidence : List ℕ → List TechniqueClaim → Checked (Unit {0})
check_evidence allowed [] = valid tt
check_evidence allowed (t ∷ ts) =
    let rest = check_evidence allowed ts in
    if all (is_allowed allowed) t.evidence_detection_ids
    then rest
    else invalid
        (unknown_evidence (keep (λ e. not (is_allowed allowed e)) t.evidence_detection_ids) ∷ [])

unfoldable pub check_risk : Analysis → Checked Analysis
check_risk a =
    let top = max_confidence a.techniques in
    if ltb 5000 ((a.risk_score - top) + (top - a.risk_score))
    then invalid (inconsistent_risk a.risk_score top ∷ [])
    else valid a

module _ (is_digit : ℕ → Bool) (index : Index) (allowed : List ℕ) where
  -- The part `(\.\d{3})?$` of the pattern, and the whole.
  unfoldable pub is_suffix : Text → Bool
  is_suffix [] = true
  is_suffix (p ∷ a ∷ b ∷ c ∷ []) = p == 46 && is_digit a && is_digit b && is_digit c
  is_suffix _ = false

  unfoldable pub matches_id : Text → Bool
  matches_id (t ∷ a ∷ b ∷ c ∷ d ∷ rest) =
      t == 84 && is_digit a && is_digit b && is_digit c && is_digit d && is_suffix rest
  matches_id _ = false

  unfoldable pub check_id : Text → Checked Text
  check_id id = if matches_id id then valid id else invalid (id_pattern id ∷ [])

  unfoldable pub check_cited : Text → List ℤ → Checked (List ℤ)
  check_cited id [] = invalid (no_evidence id ∷ [])
  check_cited id (e ∷ es) = valid (e ∷ es)

  -- `technique_name(self.id) or self.name`
  unfoldable pub display_name : Option Text → Text → Text
  display_name none name = name
  display_name (some []) name = name
  display_name (some (c ∷ cs)) name = c ∷ cs

  -- `_normalize_from_allowlist`
  unfoldable pub normalize_claim : Text × (Text × (ℕ × List ℤ)) → Checked TechniqueClaim
  normalize_claim (id, (name, (confidence, evidence))) =
      if is_known_technique index id
      then valid (record {
        id = id;
        name = display_name (technique_name index id) name;
        confidence = confidence;
        evidence_detection_ids = evidence;
      })
      else invalid (not_in_allowlist id ∷ [])

  unfoldable pub check_technique : RawTechnique → Checked TechniqueClaim
  check_technique t =
      and_then
        (both (check_id t.id) (
          both (check_length 3 80 (name_length t.id) t.name) (
            both (check_unit (technique_confidence t.id) t.confidence)
              (check_cited t.id t.evidence_detection_ids))))
        normalize_claim

  unfoldable pub check_each : List RawTechnique → Checked (List TechniqueClaim)
  check_each [] = valid []
  check_each (t ∷ ts) =
      and_then (both (check_technique t) (check_each ts)) (λ found. valid (found.0 ∷ found.1))

  -- `Field(min_length=1, max_length=5)`
  unfoldable pub check_techniques : List RawTechnique → Checked (List TechniqueClaim)
  check_techniques [] = invalid (no_techniques ∷ [])
  check_techniques (t ∷ ts) =
      let each = check_each (t ∷ ts) in
      if leb (length (t ∷ ts)) 5 then each else invalid (too_many_techniques ∷ [])

  unfoldable pub check_analysis : Text × (Text × (ℕ × (ℕ × List TechniqueClaim))) → Checked Analysis
  check_analysis (title, (narrative, (risk, (confidence, techniques)))) =
      and_then (check_evidence allowed techniques) (λ _. check_risk (record {
        title = title;
        narrative = narrative;
        risk_score = risk;
        confidence_overall = confidence;
        techniques = techniques;
      }))

  unfoldable pub model_validate : RawAnalysis → Checked Analysis
  model_validate a =
      and_then
        (both (check_length 8 120 title_length a.title) (
          both (check_length 20 700 narrative_length a.narrative) (
            both (check_unit risk_range a.risk_score) (
              both (check_unit confidence_range a.confidence_overall)
                (check_techniques a.techniques)))))
        check_analysis

  unfoldable pub validate_analysis_payload :
      {P : Type 0} → (P → Option RawAnalysis) → P → Checked Analysis
  validate_analysis_payload read_fields payload = elim (read_fields payload) [
    | none ↦ invalid (wrong_shape ∷ [])
    | some raw ↦ model_validate raw
  ]
