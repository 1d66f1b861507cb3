-- ===== src/Llm/Providers.antt =====
-- The provider chain of LlmGateway.__init__ in src/app/llm/gateway.py, from the settings of
-- src/app/config.py. `str.strip` asks `is_space`, a parameter, of every character.
use sentraxis.Prelude.{
  ℕ, Bool, Option, none, some, List, [], ◌∷◌, ◌++◌, Text, codes, text_eq, ◌==◌, if◌then◌else◌,
}

pub record Settings : Type 0 where
  pub groq_api_key : Text
  pub openrouter_api_key : Text
  pub mistral_api_key : Text
  pub llm_model_groq : Text
  pub llm_model_openrouter : Text
  pub llm_model_mistral : Text
  pub llm_provider_order : Text
  pub llm_min_interval_ms : ℕ
  pub llm_daily_budget : ℕ

pub record ProviderSpec : Type 0 where
  pub name : Text
  pub base_url : Text
  pub api_key : Text
  pub model : Text

-- `text.split(",")`, the part under way first.
unfoldable pub split_commas : Text → Text → List Text
split_commas part [] = part ∷ []
split_commas part (c ∷ cs) =
    let cut = split_commas [] cs in
    let kept = split_commas (part ++ (c ∷ [])) cs in if c == 44 then part ∷ cut else kept

unfoldable pub reversed : Text → Text → Text
reversed done [] = done
reversed done (c ∷ cs) = reversed (c ∷ done) cs

-- The row of `keys`, `PROVIDER_BASE_URLS` and `models` under the name.
unfoldable pub lookup_provider : Settings → Text → Option ProviderSpec
lookup_provider settings name =
    if text_eq name (codes "groq")
    then some (record {
      name = name;
      base_url = codes "https://api.groq.com/openai/v1";
      api_key = settings.groq_api_key;
      model = settings.llm_model_groq;
    })
    else if text_eq name (codes "openrouter")
    then some (record {
      name = name;
      base_url = codes "https://openrouter.ai/api/v1";
      api_key = settings.openrouter_api_key;
      model = settings.llm_model_openrouter;
    })
    else if text_eq name (codes "mistral")
    then some (record {
      name = name;
      base_url = codes "https://api.mistral.ai/v1";
      api_key = settings.mistral_api_key;
      model = settings.llm_model_mistral;
    })
    else none

-- `if keys.get(name)`: a name without a key, or with an empty one, is passed over.
unfoldable pub add_provider : Option ProviderSpec → List ProviderSpec → List ProviderSpec
add_provider none rest = rest
add_provider (some spec) rest = elim spec.api_key [ [] ↦ rest | ◌∷◌ c cs ↦ spec ∷ rest ]

module _ (is_space : ℕ → Bool) where
  unfoldable pub lstrip : Text → Text
  lstrip [] = []
  lstrip (c ∷ cs) = let rest = lstrip cs in if is_space c then rest else c ∷ cs

  unfoldable pub strip : Text → Text
  strip t = reversed [] (lstrip (reversed [] (lstrip t)))

  unfoldable pub build_providers : Settings → List Text → List ProviderSpec
  build_providers settings [] = []
  build_providers settings (part ∷ parts) =
      let rest = build_providers settings parts in
      elim (strip part) [
        | [] ↦ rest
        | ◌∷◌ c cs ↦ add_provider (lookup_provider settings (c ∷ cs)) rest
      ]

  -- `self.providers`
  unfoldable pub providers_of : Settings → List ProviderSpec
  providers_of settings = build_providers settings (split_commas [] settings.llm_provider_order)
