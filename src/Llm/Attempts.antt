-- ===== src/Llm/Attempts.antt =====
-- _call_once and _call_with_retries of src/app/llm/gateway.py. An exception is a value of
-- `CallError`; of its message only the kind is kept.
use sentraxis.Prelude.{
  ℕ, suc, ◌+◌, ◌-◌, ◌*◌, ◌/◌, min, Bool, false, Option, none, some, List, [], ◌∷◌, Text, leb, ltb,
  ◌==◌, ◌&&◌, ◌||◌, if◌then◌else◌,
}
use Prim.Native.Nat.{◌^◌}
use sentraxis.Detect.Base.{second}
use sentraxis.Llm.Providers.{Settings, ProviderSpec}
use sentraxis.Llm.Client.{
  Message, Body, Response, Reply, response, timed_out, unreachable, TimeUnit, milliseconds, seconds,
  World, day, Store, Gateway, set_at, sleep, engage_cooldown, redis_write, pace,
}

-- httpx.HTTPStatusError, httpx.TimeoutException, GatewayError, and every other exception.
pub data CallError : Type 0 where
  http_status : Response → CallError
  timeout gateway_error uncaught : CallError

unfoldable pub is_retry_status : ℕ → Bool
is_retry_status code = code == 429 || code == 500 || code == 502 || code == 503 || code == 504

-- `raise_for_status` raises on every status outside 200 to 299.
unfoldable pub is_success : ℕ → Bool
is_success code = leb 200 code && ltb code 300

module _ (Payload : Type 0) where
  pub record LlmResult : Type 0 where
    pub payload : Payload
    pub raw_content : Text
    pub provider : Text
    pub model : Text
    pub prompt_tokens : ℕ
    pub completion_tokens : ℕ
    pub latency_ms : ℕ
    pub cache_hit : Bool
    pub cache_key : Text

  pub data CallResult : Type 0 where
    returned : LlmResult → CallResult
    raised : CallError → CallResult

  unfoldable pub store_entry : Text → LlmResult → ℕ → Store Payload → Store Payload
  store_entry key result clock s = record s {
    cache = set_at s.cache key (
        some (record {
          payload = result.payload;
          raw_content = result.raw_content;
          provider = result.provider;
          model = result.model;
          expires_at = clock + day;
        }));
  }

  module _ (w : World Payload) where
    -- `float` of what the pattern found raises where it is no number, as for "1.2.3".
    unfoldable pub wait_hint : Option (Text × TimeUnit) → Option ℕ
    wait_hint none = some (20 * second)
    wait_hint (some (number, milliseconds)) = elim (w.parse_float number) [
      | none ↦ none
      | some v ↦ some (v / 1000)
    ]
    wait_hint (some (number, seconds)) = w.parse_float number

    unfoldable pub extract_429_wait : Response → Option ℕ
    extract_429_wait r =
        let hint = wait_hint (w.search_hint r.error_message) in
        elim r.retry_after [
          | [] ↦ hint
          | ◌∷◌ c cs ↦ elim (w.parse_float (c ∷ cs)) [ none ↦ hint | some v ↦ some v ]
        ]

    unfoldable pub backoff : ℕ → ℕ → ℕ
    backoff attempt random = 2 * second * 2 ^ (attempt - 1) * (4000000 + random) / 4000000

    unfoldable pub new_result : ProviderSpec → Text → ℕ → Body → Payload → LlmResult
    new_result spec key latency_ms body payload = record {
      payload = payload;
      raw_content = body.content;
      provider = spec.name;
      model = spec.model;
      prompt_tokens = body.prompt_tokens;
      completion_tokens = body.completion_tokens;
      latency_ms = latency_ms;
      cache_hit = false;
      cache_key = key;
    }

    -- From `try: payload = json.loads(content)` to the end.
    unfoldable pub finish :
        ProviderSpec
        → Text
        → ℕ
        → Body
        → Option Payload
        → Gateway Payload
        → CallResult × Gateway Payload
    finish spec key latency_ms body none g = (raised gateway_error, g)
    finish spec key latency_ms body (some payload) g =
        let result = new_result spec key latency_ms body payload in
        (returned result, redis_write Payload w (store_entry key result g.clock) g)

    -- `content = body["choices"][0]["message"]["content"]`
    unfoldable pub read_body :
        ProviderSpec → Text → ℕ → Option Body → Gateway Payload → CallResult × Gateway Payload
    read_body spec key latency_ms none g = (raised uncaught, g)
    read_body spec key latency_ms (some body) g =
        finish spec key latency_ms body (w.parse_object body.content) g

    unfoldable pub read_response :
        ProviderSpec → Text → ℕ → Response → Gateway Payload → CallResult × Gateway Payload
    read_response spec key latency_ms r g =
        if is_success r.status_code
        then read_body spec key latency_ms r.body g
        else (raised (http_status r), g)

    unfoldable pub read_reply :
        ProviderSpec → Text → ℕ → Reply → Gateway Payload → CallResult × Gateway Payload
    read_reply spec key latency_ms (response r) g = read_response spec key latency_ms r g
    read_reply spec key latency_ms timed_out g = (raised timeout, g)
    read_reply spec key latency_ms unreachable g = (raised uncaught, g)

    unfoldable pub call_once :
        ProviderSpec → List Message → Text → Gateway Payload → CallResult × Gateway Payload
    call_once spec messages key g =
        let (answer, time) = w.reply g.sent spec messages in
        read_reply spec key (time / 1000) answer
          (record g { sent = suc g.sent; clock = g.clock + time })

    -- What an attempt's exception leads to: the next attempt, on the state behind the wait, or the
    -- end of the loop with an exception.
    pub data Retry : Type 0 where
      again : Gateway Payload → Retry
      stop : CallError → Gateway Payload → Retry

    unfoldable pub after_backoff : ℕ → Gateway Payload → Gateway Payload
    after_backoff attempt g = sleep Payload (backoff attempt (w.random g.clock)) g

    unfoldable pub after_error : ProviderSpec → ℕ → CallError → Gateway Payload → Retry
    after_error spec attempt (http_status r) g =
        if is_retry_status r.status_code
        then if r.status_code == 429
          then elim (extract_429_wait r) [
            | none ↦ stop uncaught g
            | some time ↦ again (engage_cooldown Payload spec (min time (90 * second)) g)
          ]
          else again (after_backoff attempt g)
        else stop (http_status r) g
    after_error spec attempt timeout g = again (after_backoff attempt g)
    after_error spec attempt e g = stop e g

    -- The loop over the attempts that are left; without any, it raises GatewayError.
    unfoldable pub run_attempts :
        Settings
        → ProviderSpec
        → List Message
        → Text
        → List ℕ
        → Gateway Payload
        → CallResult × Gateway Payload
    run_attempts settings spec messages key [] g = (raised gateway_error, g)
    run_attempts settings spec messages key (attempt ∷ attempts) g =
        let (result, after) = call_once spec messages key (pace Payload w settings spec g) in
        elim result [
          | returned answer ↦ (returned answer, after)
          | raised e ↦ elim (after_error spec attempt e after) [
            | again g' ↦ run_attempts settings spec messages key attempts g'
            | stop e' g' ↦ (raised e', g')
          ]
        ]

    unfoldable pub call_with_retries :
        Settings
        → ProviderSpec
        → List Message
        → Text
        → Gateway Payload
        → CallResult × Gateway Payload
    call_with_retries settings spec messages key g =
        run_attempts settings spec messages key (1 ∷ 2 ∷ 3 ∷ []) g
