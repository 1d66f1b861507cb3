-- ===== src/Policy/Select.antt =====
-- What evaluate_response of src/app/orchestration/policy.py selects.
use sentraxis.Prelude.{
  ◌∙◌, ℕ, ◌≤◌, ◌≡◌, refl, Bool, true, false, List, [], ◌∷◌, map, String, str_eq, max, keep, any,
  ltb, leb, ◌&&◌, ◌||◌, not, if◌then◌else◌, arith, length,
}
use sentraxis.Policy.{
  Formats, PlaybookDef, IncidentContext, ActionSpec, is_external_identifier, overlap, is_nil,
  spec_for, visit, evaluate_from, evaluate_response,
}

module _ (f : Formats) where
  -- Some trigger detector of the playbook is among those of the incident.
  abbrev pub any_overlap : IncidentContext → PlaybookDef → Bool
  any_overlap ctx pb = any (λ d. any (str_eq d) ctx.detectors) pb.trigger_detectors

  abbrev pub matches : IncidentContext → ℕ → PlaybookDef → Bool
  matches ctx floor pb =
      leb pb.min_risk ctx.risk_score
      && leb floor ctx.risk_score
      && (not pb.requires_external_source || is_external_identifier f ctx.entity_identifier)
      && any_overlap ctx pb

  abbrev pub specs_of : IncidentContext → ℕ → List PlaybookDef → List ActionSpec
  specs_of ctx floor = map (λ pb.
      spec_for f ctx (is_external_identifier f ctx.entity_identifier) (max pb.min_risk floor) pb)

  is_nil-keep : (p : String → Bool) (ds : List String) → is_nil f (keep p ds) ≡ not (any p ds)
  unfolding is_nil
  is_nil-keep p [] = refl
  is_nil-keep p (d ∷ ds) = ground (arith, is_nil-keep p ds)

  is_nil-overlap :
      (ctx : IncidentContext) (pb : PlaybookDef)
      → is_nil f (overlap f ctx pb) ≡ not (any_overlap ctx pb)
  unfolding overlap
  is_nil-overlap ctx pb = is_nil-keep (λ d. any (str_eq d) ctx.detectors) pb.trigger_detectors

  max-ltb : (r a b : ℕ) → ltb r (max a b) ≡ not (leb a r && leb b r)
  max-ltb r a b = ground arith

  ladder :
      (a b c d e : Bool) (specs more : List ActionSpec)
      → (if not (a && b)
          then specs
          else if c && not d
          then specs
          else if not e
          then specs
          else more)
        ≡ (if a && b && (not c || d) && e then more else specs)
  ladder a b c d e specs more = ground arith

  visit_lem :
      (ctx : IncidentContext) (external : Bool) (floor : ℕ) (pb : PlaybookDef)
      (specs : List ActionSpec)
      → visit f ctx external (max pb.min_risk floor) pb specs ≡ (
          if leb pb.min_risk ctx.risk_score
            && leb floor ctx.risk_score
            && (not pb.requires_external_source || external)
            && any_overlap ctx pb
          then spec_for f ctx external (max pb.min_risk floor) pb ∷ specs
          else specs)
  unfolding visit
  visit_lem ctx external floor pb specs =
      rw (max-ltb ctx.risk_score pb.min_risk floor, is_nil-overlap ctx pb)
        (ladder (leb pb.min_risk ctx.risk_score) (leb floor ctx.risk_score)
          pb.requires_external_source external (any_overlap ctx pb) specs _)

  map-if :
      (b : Bool) (g : PlaybookDef → ActionSpec) (x : PlaybookDef) (xs : List PlaybookDef)
      → (if b then g x ∷ map g xs else map g xs) ≡ map g (if b then x ∷ xs else xs)
  map-if true g x xs = refl
  map-if false g x xs = refl

  -- The response to an incident holds one action for each matching playbook and no other, in the
  -- order of the playbooks: the risk reaches the playbook's threshold and the floor, the source is
  -- external where the playbook asks for it, and a trigger detector is among the incident's.
  pub evaluate_response-eq-specs_of :
      (ctx : IncidentContext) (playbooks : List PlaybookDef) (floor : ℕ)
      → evaluate_response f ctx playbooks floor
        ≡ specs_of ctx floor (keep (matches ctx floor) playbooks)
  unfolding evaluate_response evaluate_from
  evaluate_response-eq-specs_of ctx [] floor = refl
  evaluate_response-eq-specs_of ctx (pb ∷ pbs) floor =
      visit_lem ctx (is_external_identifier f ctx.entity_identifier) floor pb _
      ∙ rw (evaluate_response-eq-specs_of ctx pbs floor) (map-if (matches ctx floor pb) _ pb _)

  -- A higher risk of the same incident never yields fewer actions.
  pub evaluate_response_mono :
      (ctx : IncidentContext) (risk : ℕ) (playbooks : List PlaybookDef) (floor : ℕ)
      → ctx.risk_score ≤ risk
      → length (evaluate_response f ctx playbooks floor)
        ≤ length (evaluate_response f (record ctx { risk_score = risk }) playbooks floor)
  unfolding evaluate_response evaluate_from visit overlap
  evaluate_response_mono ctx risk [] floor h = omega arith
  evaluate_response_mono ctx risk (pb ∷ pbs) floor h =
      ground (arith, evaluate_response_mono ctx risk pbs floor h)
