-- ===== src/Correlate/Trusted.antt =====
-- What CorrelationAgent.analyze of src/app/correlation/agent.py returns.
use sentraxis.Prelude.{
  ℕ, suc, zero, ◌+◌, ◌*◌, ◌≤◌, ◌≡◌, refl, ◌⊎◌, inl, inr, Bool, true, false, Option, none, some,
  List, [], String, Text, length, arith, Option-cases, if◌then◌else◌,
}
use sentraxis.Llm.Providers.{Settings, ProviderSpec}
use sentraxis.Llm.Client.{Message, World, Gateway}
use sentraxis.Llm.Attempts.{LlmResult}
use sentraxis.Llm.Gateway.{
  ChatResult, chat, no_providers_configured, budget_exhausted, all_providers_failed, propagated,
  chat_json,
}
use sentraxis.Llm.Verdict.{chat_json_lem}
use sentraxis.Correlate.Attack.{Index}
use sentraxis.Correlate.Draft.{IncidentDraft}
use sentraxis.Correlate.Facts.{AnalysisFact}
use sentraxis.Correlate.Analysis.{Analysis, Checked, valid, invalid, validate_analysis_payload}
use sentraxis.Correlate.Accepted.{IsAccepted, model_validate-IsAccepted}
use sentraxis.Correlate.Agent.{
  Analyzed, Tools, purpose, fail_meta, success_meta, failed_with, repair_messages, on_exception,
  conclude, on_answer, analyze_attempts, analyze,
}

-- The outcomes of `analyze` without an analysis.
abbrev pub IsFailure : String → Type 0
IsFailure outcome =
    (outcome ≡ "unavailable")
    ⊎ (outcome ≡ "provider_error")
    ⊎ (outcome ≡ "budget_exhausted")
    ⊎ (outcome ≡ "schema_invalid_failed")

abbrev times : ℕ → ℕ → ℕ
times zero x = 0
times (suc n) x = x + times n x

module _ (P : Type 0) (w : World P) (tools : Tools P) (index : Index) (settings : Settings)
    (chain : List ProviderSpec) where
  -- Either there is no analysis, for a named reason, or one that the schema accepts.
  abbrev pub IsJudged : List ℕ → Analyzed → Type 0
  IsJudged allowed x =
      ((x.analysis ≡ none) × IsFailure x.meta.outcome)
      ⊎ ((a : Analysis) × (x.analysis ≡ some a)
          × IsAccepted tools.is_digit index allowed a
          × (x.meta.outcome ≡ (if x.repaired then "ok_repaired" else "ok")))

  abbrev Ruled : List ℕ → (least most : ℕ) → Analyzed × Gateway P → Type 0
  Ruled allowed least most ran = (least ≤ ran.1.sent) × (ran.1.sent ≤ most) × IsJudged allowed ran.0

  on_exception-IsJudged :
      (allowed : List ℕ) (result : ChatResult P) (repaired : Bool)
      → IsJudged allowed (on_exception P w tools index settings chain result repaired)
  unfolding on_exception failed_with fail_meta
  on_exception-IsJudged allowed (chat r) repaired = inl (refl, inr (inl refl))
  on_exception-IsJudged allowed no_providers_configured repaired = inl (refl, inl refl)
  on_exception-IsJudged allowed (budget_exhausted errors) repaired =
      inl (refl, inr (inr (inl refl)))
  on_exception-IsJudged allowed (all_providers_failed errors) repaired = inl (refl, inr (inl refl))
  on_exception-IsJudged allowed (propagated e) repaired = inl (refl, inr (inl refl))

  validate-IsAccepted :
      (allowed : List ℕ) (payload : P) (a : Analysis)
      → validate_analysis_payload tools.is_digit index allowed tools.read_fields payload ≡ valid a
      → IsAccepted tools.is_digit index allowed a
  unfolding validate_analysis_payload
  validate-IsAccepted allowed payload a h = elim (Option-cases (tools.read_fields payload)) [
    | inl e ↦ absurd (ground arith)
    | inr (raw, e) ↦ model_validate-IsAccepted tools.is_digit index allowed raw a (ground arith)
  ]

  conclude-Ruled :
      (allowed : List ℕ) (least most : ℕ) (repair : List Text → Analyzed × Gateway P)
      (result : LlmResult P) (repaired : Bool) (g : Gateway P) (judged : Checked Analysis)
      → ((a : Analysis) → judged ≡ valid a → IsAccepted tools.is_digit index allowed a)
      → ((errors : List Text) → Ruled allowed least most (repair errors))
      → least ≤ g.sent
      → g.sent ≤ most
      → Ruled allowed least most
          (conclude P w tools index settings chain repair result repaired g judged)
  unfolding conclude success_meta
  conclude-Ruled allowed least most repair result repaired g (valid a) sound next x y =
      (x, y, inr (a, refl, sound a refl, refl))
  conclude-Ruled allowed least most repair result repaired g (invalid issues) sound next x y =
      next _

  on_answer-Ruled :
      (allowed : List ℕ) (least most : ℕ) (judge : LlmResult P → Analyzed × Gateway P)
      (repaired : Bool) (g : Gateway P) (answer : ChatResult P)
      → ((r : LlmResult P) → Ruled allowed least most (judge r))
      → least ≤ g.sent
      → g.sent ≤ most
      → Ruled allowed least most (on_answer P w tools index settings chain judge repaired g answer)
  unfolding on_answer
  on_answer-Ruled allowed least most judge repaired g (chat r) next x y = next r
  on_answer-Ruled allowed least most judge repaired g no_providers_configured next x y =
      (x, y, on_exception-IsJudged allowed _ repaired)
  on_answer-Ruled allowed least most judge repaired g (budget_exhausted errors) next x y =
      (x, y, on_exception-IsJudged allowed _ repaired)
  on_answer-Ruled allowed least most judge repaired g (all_providers_failed errors) next x y =
      (x, y, on_exception-IsJudged allowed _ repaired)
  on_answer-Ruled allowed least most judge repaired g (propagated e) next x y =
      (x, y, on_exception-IsJudged allowed _ repaired)

  analyze_attempts-Ruled :
      (allowed : List ℕ) (attempts : ℕ) (messages : List Message) (bust_key : Option Text)
      (repaired : Bool) (last_errors : List Text) (g : Gateway P)
      → Ruled allowed g.sent (g.sent + times attempts (3 * length chain)) (
          analyze_attempts P w tools index settings chain allowed attempts messages bust_key
            repaired last_errors g)
  unfolding analyze_attempts failed_with fail_meta
  analyze_attempts-Ruled allowed zero messages bust_key repaired last_errors g =
      (omega arith, omega arith, inl (refl, inr (inr (inr refl))))
  analyze_attempts-Ruled allowed (suc attempts) messages bust_key repaired last_errors g =
      let called = chat_json P w settings chain purpose messages bust_key g in
      let (x, y, z) = chat_json_lem P w settings chain purpose messages bust_key g in
      on_answer-Ruled allowed _ _ _ repaired called.1 called.0
        (λ r.
          conclude-Ruled allowed _ _ _ r repaired called.1 _ (validate-IsAccepted allowed r.payload)
            (λ errors.
              let (a, b, c) =
                analyze_attempts-Ruled allowed attempts
                  (repair_messages P w tools index settings chain messages r errors)
                  (some r.cache_key) true errors called.1 in
              (omega (arith, x, a), omega (arith, y, b), c))
            (omega (arith, x)) (omega (arith, y)))
        (omega (arith, x)) (omega (arith, y))

  -- Analyzing a draft always returns, after at most two gateway calls, so at most six requests for
  -- each configured provider. It gives no analysis, for a named reason; or one in the bounds of the
  -- schema, with one to five techniques, each of the index and with evidence that names detections
  -- of this incident only, and with a risk at most a half away from the highest confidence.
  pub analyze_lem :
      (system_prompt entity_identifier : Text) (draft : IncidentDraft) (facts : List AnalysisFact)
      (allowed : List ℕ) (g : Gateway P)
      → let ran =
          analyze P w tools index settings chain system_prompt entity_identifier draft facts allowed
            g in
        (g.sent ≤ ran.1.sent) × (ran.1.sent ≤ g.sent + 6 * length chain) × IsJudged allowed ran.0
  unfolding analyze
  analyze_lem system_prompt entity_identifier draft facts allowed g =
      let (x, y, z) = analyze_attempts-Ruled allowed 2 _ none false [] g in (x, omega (arith, y), z)
