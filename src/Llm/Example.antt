-- ===== src/Llm/Example.antt =====
-- A gateway of src/app/llm/gateway.py with two providers, whose first request is answered with 503.
use sentraxis.Prelude.{ℕ, false, none, some, List, [], ◌∷◌, codes, ◌==◌, if◌then◌else◌}
use sentraxis.Llm.Providers.{Settings, ProviderSpec}
use sentraxis.Llm.Client.{Response, response, World, Gateway}

abbrev pub settings : Settings
settings = record {
  groq_api_key = codes "a";
  openrouter_api_key = [];
  mistral_api_key = codes "b";
  llm_model_groq = codes "m";
  llm_model_openrouter = codes "n";
  llm_model_mistral = codes "o";
  llm_provider_order = codes "groq, openrouter,mistral";
  llm_min_interval_ms = 0;
  llm_daily_budget = 5;
}

abbrev pub groq : ProviderSpec
groq = record {
  name = codes "groq";
  base_url = codes "https://api.groq.com/openai/v1";
  api_key = codes "a";
  model = codes "m";
}

abbrev pub mistral : ProviderSpec
mistral = record {
  name = codes "mistral";
  base_url = codes "https://api.mistral.ai/v1";
  api_key = codes "b";
  model = codes "o";
}

abbrev pub answered : ℕ → Response
answered status = record {
  status_code = status;
  retry_after = [];
  error_message = [];
  body = some (record { content = codes "x"; prompt_tokens = 3; completion_tokens = 4 });
}

abbrev pub world : World ℕ
world = record {
  outage = λ n. false;
  reply = λ n spec messages. (response (answered (if n == 0 then 503 else 200)), 1000);
  random = λ n. 0;
  parse_float = λ t. none;
  search_hint = λ t. none;
  parse_object = λ t. some 7;
  digest = λ purpose messages chain. chain;
}

abbrev pub start : Gateway ℕ
start = record {
  redis = some (record { budget = λ name date. 0; cache = λ key. none; minint_until = λ name. 0 });
  cooldown_until = λ name. 0;
  clock = 0;
  commands = 0;
  sent = 0;
}

abbrev pub chain : List ProviderSpec
chain = groq ∷ mistral ∷ []
