-- ===== src/Correlate/Agent.antt =====
-- CorrelationAgent.analyze of src/app/correlation/agent.py, on the gateway of
-- src/app/llm/gateway.py. The system prompt is an argument, as the constructor keeps it.
use sentraxis.Prelude.{
  ℕ, suc, zero, Bool, true, false, Option, none, some, List, [], ◌∷◌, ◌++◌, String, Text, codes,
  take, map, if◌then◌else◌,
}
use sentraxis.Llm.Providers.{Settings, ProviderSpec}
use sentraxis.Llm.Client.{Message, World, Gateway}
use sentraxis.Llm.Attempts.{LlmResult}
use sentraxis.Llm.Gateway.{ChatResult, chat, no_providers_configured, budget_exhausted, chat_json}
use sentraxis.Correlate.Attack.{Index}
use sentraxis.Correlate.Draft.{IncidentDraft}
use sentraxis.Correlate.Facts.{AnalysisFact, Projection, build_user_prompt}
use sentraxis.Correlate.Analysis.{
  RawAnalysis, Analysis, Issue, Checked, valid, invalid, validate_analysis_payload,
}

pub record Meta : Type 0 where
  pub provider : Text
  pub model : Text
  pub prompt_tokens : ℕ
  pub completion_tokens : ℕ
  pub latency_ms : ℕ
  pub outcome : String
  pub cache_hit : Bool
  pub error_detail : Option Text

pub record Analyzed : Type 0 where
  pub analysis : Option Analysis
  pub meta : Meta
  pub repaired : Bool

-- What the agent uses of the world: pydantic, `str` of a validation error and of an exception.
pub record Tools (P : Type 0) : Type 0 where
  pub is_digit : ℕ → Bool
  pub read_fields : P → Option RawAnalysis
  pub isoformat : ℕ → Text
  pub dumps : Projection → Text
  pub describe : Issue → Text
  pub exception_text : ChatResult P → Text

unfoldable pub join : Text → List Text → Text
join sep [] = []
join sep (t ∷ []) = t
join sep (t ∷ u ∷ us) = t ++ sep ++ join sep (u ∷ us)

unfoldable pub fail_meta : String → Text → Meta
fail_meta outcome detail = record {
  provider = codes "-";
  model = codes "-";
  prompt_tokens = 0;
  completion_tokens = 0;
  latency_ms = 0;
  outcome = outcome;
  cache_hit = false;
  error_detail = some (take 500 detail);
}

abbrev pub purpose : Text
purpose = codes "incident_correlation"

-- A line feed and the dash of a list.
abbrev pub bullet : Text
bullet = 10 ∷ codes "- "

unfoldable pub repair_content : List Text → Text
repair_content last_errors =
    codes "Your previous response violated these constraints:"
    ++ bullet
    ++ join bullet (take 8 last_errors)
    ++ (10 ∷ codes "Return corrected JSON matching the schema exactly.")

module _ (P : Type 0) (w : World P) (tools : Tools P) (index : Index) (settings : Settings)
    (chain : List ProviderSpec) where
  unfoldable pub success_meta : LlmResult P → Bool → Meta
  success_meta result repaired = record {
    provider = result.provider;
    model = result.model;
    prompt_tokens = result.prompt_tokens;
    completion_tokens = result.completion_tokens;
    latency_ms = result.latency_ms;
    outcome = if repaired then "ok_repaired" else "ok";
    cache_hit = result.cache_hit;
    error_detail = none;
  }

  unfoldable pub failed_with : String → Text → Bool → Analyzed
  failed_with outcome detail repaired = record {
    analysis = none;
    meta = fail_meta outcome detail;
    repaired = repaired;
  }

  unfoldable pub repair_messages : List Message → LlmResult P → List Text → List Message
  repair_messages messages result last_errors =
      take 2 messages
      ++ (record { role = codes "assistant"; content = result.raw_content }
          ∷ record { role = codes "user"; content = repair_content last_errors }
          ∷ [])

  -- What the except clauses make of an exception.
  unfoldable pub on_exception : ChatResult P → Bool → Analyzed
  on_exception (budget_exhausted errors) repaired =
      failed_with "budget_exhausted" (tools.exception_text (budget_exhausted errors)) repaired
  on_exception no_providers_configured repaired =
      failed_with "unavailable" (tools.exception_text no_providers_configured) repaired
  on_exception result repaired = failed_with "provider_error" (tools.exception_text result) repaired

  -- `isinstance(validated, Analysis)`; errors go to the repair round.
  unfoldable pub conclude :
      (List Text → Analyzed × Gateway P)
      → LlmResult P
      → Bool
      → Gateway P
      → Checked Analysis
      → Analyzed × Gateway P
  conclude repair result repaired g (valid analysis) = (
    record { analysis = some analysis; meta = success_meta result repaired; repaired = repaired },
    g,
  )
  conclude repair result repaired g (invalid issues) = repair (map tools.describe issues)

  unfoldable pub on_answer :
      (LlmResult P → Analyzed × Gateway P) → Bool → Gateway P → ChatResult P → Analyzed × Gateway P
  on_answer judge repaired g (chat result) = judge result
  on_answer judge repaired g e = (on_exception e repaired, g)

  -- The loop over the attempts that are left, and what follows it.
  unfoldable pub analyze_attempts :
      List ℕ → ℕ → List Message → Option Text → Bool → List Text → Gateway P → Analyzed × Gateway P
  analyze_attempts allowed zero messages bust_key repaired last_errors g =
      (failed_with "schema_invalid_failed" (join (codes "; ") (take 3 last_errors)) repaired, g)
  analyze_attempts allowed (suc attempts) messages bust_key repaired last_errors g =
      let (answer, after) = chat_json P w settings chain purpose messages bust_key g in
      on_answer
        (λ result.
          conclude
            (λ errors.
              analyze_attempts allowed attempts (repair_messages messages result errors)
                (some result.cache_key) true errors after)
            result repaired after
            (validate_analysis_payload tools.is_digit index allowed tools.read_fields
              result.payload))
        repaired after answer

  unfoldable pub analyze :
      Text → Text → IncidentDraft → List AnalysisFact → List ℕ → Gateway P → Analyzed × Gateway P
  analyze system_prompt entity_identifier draft facts allowed g =
      let messages =
        record { role = codes "system"; content = system_prompt }
        ∷ record {
          role = codes "user";
          content = build_user_prompt tools.isoformat tools.dumps entity_identifier draft facts;
        }
        ∷ [] in
      analyze_attempts allowed 2 messages none false [] g
