-- ===== src/Llm/Tests.antt =====
-- The theorems on src/app/llm/gateway.py at a gateway with two providers.
use sentraxis.Prelude.{
  ℕ, ◌+◌, ◌≤◌, ◌≡◌, ◌≢◌, refl, true, false, none, [], ◌∷◌, codes, text_eq, ◌==◌,
}
use sentraxis.Llm.Providers.{
  providers_of, build_providers, split_commas, strip, reversed, lstrip, add_provider,
  lookup_provider,
}
use sentraxis.Llm.Client.{
  unreachable, World, redis_get, live_entry, budget_allows, is_below, pace, sleep, add_spend,
  after_acquire, engage_cooldown, hold_interval, record_budget_spend, redis_write, set_at,
  try_acquire,
}
use sentraxis.Llm.Attempts.{
  LlmResult, uncaught, call_with_retries, run_attempts, call_once, read_reply, read_response,
  is_success, after_error, after_backoff, backoff, extract_429_wait, finish, is_retry_status,
  new_result, read_body, store_entry, wait_hint,
}
use sentraxis.Llm.Gateway.{
  chat, propagated, chat_json, answer_from, bust, try_providers, cache_key, cached_result,
  chain_signature, delete_entry, is_budget_error, is_caught,
}
use sentraxis.Llm.Example.{settings, groq, mistral, world, start, chain}
use sentraxis.Llm.Verdict.{Explains, chat_json_lem}
use sentraxis.Llm.Again.{chat_json-again}

-- A provider without a key is left out.
providers : providers_of (λ c. c == 32) settings ≡ groq ∷ mistral ∷ []
unfolding providers_of build_providers split_commas strip reversed lstrip add_provider
    lookup_provider text_eq
providers = refl

abbrev result : LlmResult ℕ
result = record {
  payload = 7;
  raw_content = codes "x";
  provider = codes "groq";
  model = codes "m";
  prompt_tokens = 3;
  completion_tokens = 4;
  latency_ms = 1;
  cache_hit = false;
  cache_key = cache_key ℕ world (codes "p") [] chain;
}

first_answer : (chat_json ℕ world settings chain (codes "p") [] none start).0 ≡ chat result
unfolding chat_json redis_get live_entry budget_allows is_below pace sleep add_spend after_acquire
    engage_cooldown hold_interval record_budget_spend redis_write set_at try_acquire answer_from
    bust try_providers call_with_retries run_attempts call_once read_reply read_response is_success
    after_error after_backoff backoff cache_key cached_result chain_signature delete_entry
    extract_429_wait finish is_budget_error is_caught is_retry_status new_result read_body
    store_entry wait_hint text_eq
first_answer = refl

redis_up : (chat_json ℕ world settings chain (codes "p") [] none start).1.redis ≢ none
unfolding chat_json redis_get live_entry budget_allows is_below pace sleep add_spend after_acquire
    engage_cooldown hold_interval record_budget_spend redis_write set_at try_acquire answer_from
    bust try_providers call_with_retries run_attempts call_once read_reply read_response is_success
    after_error after_backoff backoff cache_key cached_result chain_signature delete_entry
    extract_429_wait finish is_budget_error is_caught is_retry_status new_result read_body
    store_entry wait_hint text_eq
redis_up e = cc

next_up :
    world.outage (chat_json ℕ world settings chain (codes "p") [] none start).1.commands ≡ false
next_up = refl

chat_json_lem_example :
    let ran = chat_json ℕ world settings chain (codes "p") [] none start in
    (0 ≤ ran.1.sent)
    × (ran.1.sent ≤ 6)
    × Explains ℕ world (cache_key ℕ world (codes "p") [] chain) 2 0 ran.0 ran.1
chat_json_lem_example = chat_json_lem ℕ world settings chain (codes "p") [] none start

chat_json-again_example :
    let first = chat_json ℕ world settings chain (codes "p") [] none start in
    let again = chat_json ℕ world settings chain (codes "p") [] none first.1 in
    (r' : LlmResult ℕ) × (again.0 ≡ chat r')
    × (r'.payload ≡ 7)
    × (r'.raw_content ≡ codes "x")
    × (r'.cache_hit ≡ true)
    × (r'.prompt_tokens + r'.completion_tokens ≡ 0)
    × (again.1.sent ≡ first.1.sent)
chat_json-again_example =
    chat_json-again ℕ world settings chain (codes "p") [] none start result first_answer redis_up
      next_up

abbrev down : World ℕ
down = record world { reply = λ n spec messages. (unreachable, 1000) }

-- A refused connection to the first provider ends the call: the second is not asked.
unreachable_ends :
    let ran = chat_json ℕ down settings chain (codes "p") [] none start in
    (ran.0 ≡ propagated uncaught) × (ran.1.sent ≡ 1)
unfolding chat_json redis_get live_entry budget_allows is_below pace sleep add_spend after_acquire
    engage_cooldown hold_interval record_budget_spend redis_write set_at try_acquire answer_from
    bust try_providers call_with_retries run_attempts call_once read_reply read_response is_success
    after_error after_backoff backoff cache_key cached_result chain_signature delete_entry
    extract_429_wait finish is_budget_error is_caught is_retry_status new_result read_body
    store_entry wait_hint text_eq
unreachable_ends = (refl, refl)

-- Pacing does not wait: a second call in the interval goes through at once.
pace_waits_not :
    let paced = record settings { llm_min_interval_ms = 2500 } in
    let first = pace ℕ world paced groq start in (pace ℕ world paced groq first).clock ≡ 0
unfolding pace sleep try_acquire after_acquire hold_interval set_at text_eq
pace_waits_not = refl
