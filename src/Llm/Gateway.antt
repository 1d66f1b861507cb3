-- ===== src/Llm/Gateway.antt =====
-- chat_json of src/app/llm/gateway.py, with its cache and its fallback over the providers.
use sentraxis.Prelude.{
  Bool, true, false, Option, none, some, List, [], ◌∷◌, ◌++◌, Text, codes, text_eq, all,
  if◌then◌else◌,
}
use sentraxis.Llm.Providers.{Settings, ProviderSpec}
use sentraxis.Llm.Client.{
  Message, World, Cached, Store, Gateway, set_at, live_entry, redis_get, redis_write, budget_allows,
  record_budget_spend,
}
use sentraxis.Llm.Attempts.{CallError, LlmResult, call_with_retries, uncaught, returned, raised}

-- An element of `errors`.
pub data ProviderError : Type 0 where
  daily_budget_exhausted : Text → ProviderError
  failed : Text → CallError → ProviderError

-- The except clause of `chat_json`.
unfoldable pub is_caught : CallError → Bool
is_caught uncaught = false
is_caught _ = true

-- `"daily budget exhausted" in e`: no message of httpx, json or the gateway's retries has the words.
unfoldable pub is_budget_error : ProviderError → Bool
is_budget_error (daily_budget_exhausted name) = true
is_budget_error (failed name e) = false

-- `f"{p.name}:{p.model}"`, joined with commas.
unfoldable pub chain_signature : List ProviderSpec → Text
chain_signature [] = []
chain_signature (p ∷ []) = p.name ++ (58 ∷ p.model)
chain_signature (p ∷ q ∷ ps) = p.name ++ (58 ∷ p.model) ++ (44 ∷ chain_signature (q ∷ ps))

module _ (Payload : Type 0) where
  pub data ChatResult : Type 0 where
    chat : LlmResult Payload → ChatResult
    no_providers_configured : ChatResult
    budget_exhausted all_providers_failed : List ProviderError → ChatResult
    propagated : CallError → ChatResult

  unfoldable pub delete_entry : Text → Store Payload → Store Payload
  delete_entry key s = record s { cache = set_at s.cache key none }

  unfoldable pub cached_result : Text → Cached Payload → LlmResult Payload
  cached_result key entry = record {
    payload = entry.payload;
    raw_content = entry.raw_content;
    provider = entry.provider;
    model = entry.model;
    prompt_tokens = 0;
    completion_tokens = 0;
    latency_ms = 0;
    cache_hit = true;
    cache_key = key;
  }

  module _ (w : World Payload) where
    unfoldable pub cache_key : Text → List Message → List ProviderSpec → Text
    cache_key purpose messages chain =
        codes "llm:cache:" ++ w.digest purpose messages (chain_signature chain)

    -- The loop over the providers, with `errors`, and what follows it.
    unfoldable pub try_providers :
        Settings
        → List Message
        → Text
        → List ProviderError
        → List ProviderSpec
        → Gateway Payload
        → ChatResult × Gateway Payload
    try_providers settings messages key errors [] g = (
      if all is_budget_error errors then budget_exhausted errors else all_providers_failed errors,
      g,
    )
    try_providers settings messages key errors (spec ∷ specs) g =
        let (allowed, asked) = budget_allows Payload w settings spec g in
        elim allowed [
          | false ↦
              try_providers settings messages key
                (errors ++ (daily_budget_exhausted spec.name ∷ [])) specs asked
          | true ↦
              let (result, after) = call_with_retries Payload w settings spec messages key asked in
              elim result [
                | returned answer ↦ (chat answer, record_budget_spend Payload w spec after)
                | raised e ↦ elim (is_caught e) [
                  | true ↦
                      try_providers settings messages key (errors ++ (failed spec.name e ∷ []))
                        specs after
                  | false ↦ (propagated e, after)
                ]
              ]
        ]

    -- `if bust_cache_key and bust_cache_key == key`
    unfoldable pub bust : Text → Option Text → Gateway Payload → Gateway Payload
    bust key none g = g
    bust key (some []) g = g
    bust key (some (c ∷ cs)) g =
        if text_eq (c ∷ cs) key then redis_write Payload w (delete_entry key) g else g

    -- From `if cached` to the end.
    unfoldable pub answer_from :
        Settings
        → List ProviderSpec
        → List Message
        → Text
        → Option (Cached Payload)
        → Gateway Payload
        → ChatResult × Gateway Payload
    answer_from settings chain messages key (some hit) g = (chat (cached_result key hit), g)
    answer_from settings chain messages key none g = try_providers settings messages key [] chain g

    unfoldable pub chat_json :
        Settings
        → List ProviderSpec
        → Text
        → List Message
        → Option Text
        → Gateway Payload
        → ChatResult × Gateway Payload
    chat_json settings [] purpose messages bust_cache_key g = (no_providers_configured, g)
    chat_json settings (p ∷ ps) purpose messages bust_cache_key g =
        let key = cache_key purpose messages (p ∷ ps) in
        let busted = bust key bust_cache_key g in
        let (entry, asked) =
          redis_get Payload w (λ (s : Store Payload). live_entry Payload busted.clock (s.cache key))
            busted in
        answer_from settings (p ∷ ps) messages key entry asked
