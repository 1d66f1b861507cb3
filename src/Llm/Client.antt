-- ===== src/Llm/Client.antt =====
-- The state of LlmGateway in src/app/llm/gateway.py with the Redis that it talks to: reads, writes,
-- the daily budget, pacing and cooldowns. Times are microseconds of one clock, on which sleeping
-- takes its time. What lies outside stands in `World`.
use sentraxis.Prelude.{
  ℕ, suc, ◌+◌, ◌-◌, ◌*◌, ◌/◌, max, Bool, true, ◌&&◌, Option, none, some, List, Text, text_eq, ltb,
  ◌==◌, if◌then◌else◌,
}
use sentraxis.Detect.Base.{second}
use sentraxis.Llm.Providers.{Settings, ProviderSpec}

pub record Message : Type 0 where
  pub role : Text
  pub content : Text

-- What `_call_once` reads of the JSON of a successful response.
pub record Body : Type 0 where
  pub content : Text
  pub prompt_tokens : ℕ
  pub completion_tokens : ℕ

-- A header that is absent is empty, and so is an error message that cannot be read. The body is
-- `none` where `response.json()` raises, or the reading of a field that is missing or of a wrong type.
pub record Response : Type 0 where
  pub status_code : ℕ
  pub retry_after : Text
  pub error_message : Text
  pub body : Option Body

-- What `client.post` ends with: a response, httpx.TimeoutException, or another exception, such as
-- httpx.ConnectError.
pub data Reply : Type 0 where
  response : Response → Reply
  timed_out unreachable : Reply

-- `value if unit == "s"`, and so on, of the match of the pattern for the hint.
pub data TimeUnit : Type 0 where
  milliseconds seconds : TimeUnit

-- Redis commands and requests are numbered: `outage n` tells that command n raises, `reply n` is
-- the outcome of request n with its duration. `parse_float` is `float`, in microseconds, a negative
-- number as 0; `search_hint` the regular expression; `parse_object` is `json.loads` where it gives
-- an object; `digest` the SHA-256 of the request's JSON; `random` is `random.random()` in
-- millionths.
pub record World (Payload : Type 0) : Type 0 where
  pub outage : ℕ → Bool
  pub reply : ℕ → ProviderSpec → List Message → Reply × ℕ
  pub random : ℕ → ℕ
  pub parse_float : Text → Option ℕ
  pub search_hint : Text → Option (Text × TimeUnit)
  pub parse_object : Text → Option Payload
  pub digest : Text → List Message → Text → Text

-- `redis.set(..., nx=True)` answers True or, where the key is held, None; never False.
pub data Acquired : Type 0 where
  acquired held refused : Acquired

unfoldable pub set_at : {A : Type 0} → (Text → A) → Text → A → Text → A
set_at f name value other_name = if text_eq name other_name then value else f other_name

abbrev pub day : ℕ
day = 86400 * second

module _ (Payload : Type 0) where
  -- The fields of the JSON that `_cache_write` stores.
  pub record Cached : Type 0 where
    pub payload : Payload
    pub raw_content : Text
    pub provider : Text
    pub model : Text
    pub expires_at : ℕ

  -- The keys `llm:budget:<name>:<day>`, `llm:cache:<digest>` and `llm:minint:<name>`. A budget is
  -- read only on its own day, before it can expire.
  pub record Store : Type 0 where
    pub budget : Text → ℕ → ℕ
    pub cache : Text → Option Cached
    pub minint_until : Text → ℕ

  pub record Gateway : Type 0 where
    pub redis : Option Store
    pub cooldown_until : Text → ℕ
    pub clock : ℕ
    pub commands : ℕ
    pub sent : ℕ

  unfoldable pub sleep : ℕ → Gateway → Gateway
  sleep time g = record g { clock = g.clock + time }

  unfoldable pub engage_cooldown : ProviderSpec → ℕ → Gateway → Gateway
  engage_cooldown spec time g = record g {
    cooldown_until =
        set_at g.cooldown_until spec.name (max (g.cooldown_until spec.name) (g.clock + time));
  }

  unfoldable pub live_entry : ℕ → Option Cached → Option Cached
  live_entry clock none = none
  live_entry clock (some entry) = if ltb clock entry.expires_at then some entry else none

  module _ (w : World Payload) where
    -- The handle is dropped after the first failure.
    unfoldable pub redis_get : {A : Type 0} → (Store → Option A) → Gateway → Option A × Gateway
    redis_get read g = elim g.redis [
      | none ↦ (none, g)
      | some store ↦
          if w.outage g.commands
          then (none, record g { redis = none; commands = suc g.commands })
          else (read store, record g { commands = suc g.commands })
    ]

    unfoldable pub redis_write : (Store → Store) → Gateway → Gateway
    redis_write write g = elim g.redis [
      | none ↦ g
      | some store ↦
          if w.outage g.commands
          then record g { redis = none; commands = suc g.commands }
          else record g { redis = some (write store); commands = suc g.commands }
    ]

    -- `int(count or 0) < self.settings.llm_daily_budget`
    unfoldable pub is_below : ℕ → Option ℕ → Bool
    is_below budget none = ltb 0 budget
    is_below budget (some count) = ltb count budget

    unfoldable pub budget_allows : Settings → ProviderSpec → Gateway → Bool × Gateway
    budget_allows settings spec g = elim g.redis [
      | none ↦ (true, g)
      | some store ↦
          let (count, after) =
            redis_get (λ (s : Store). some (s.budget spec.name (g.clock / day))) g in
          (is_below settings.llm_daily_budget count, after)
    ]

    unfoldable pub add_spend : ProviderSpec → ℕ → Store → Store
    add_spend spec today s = record s {
      budget = λ name date.
          if text_eq spec.name name && today == date
          then suc (s.budget name date)
          else s.budget name date;
    }

    unfoldable pub record_budget_spend : ProviderSpec → Gateway → Gateway
    record_budget_spend spec g = redis_write (add_spend spec (g.clock / day)) g

    unfoldable pub hold_interval : ProviderSpec → ℕ → Store → Store
    hold_interval spec until s = record s { minint_until = set_at s.minint_until spec.name until }

    -- A failure here is passed over, and the handle stays.
    unfoldable pub try_acquire : Settings → ProviderSpec → Gateway → Acquired × Gateway
    try_acquire settings spec g = elim g.redis [
      | none ↦ (acquired, g)
      | some store ↦
          let after = record g { commands = suc g.commands } in
          if w.outage g.commands
          then (acquired, after)
          else if ltb g.clock (store.minint_until spec.name)
          then (held, after)
          else (
            acquired,
            record after {
              redis =
                  some (hold_interval spec (g.clock + settings.llm_min_interval_ms * 1000) store);
            },
          )
    ]

    -- `if acquired is False: time.sleep(...)`
    unfoldable pub after_acquire : Settings → Acquired × Gateway → Gateway
    after_acquire settings (acquired, g) = g
    after_acquire settings (held, g) = g
    after_acquire settings (refused, g) = sleep (settings.llm_min_interval_ms * 1000) g

    unfoldable pub pace : Settings → ProviderSpec → Gateway → Gateway
    pace settings spec g =
        let cooled = sleep (g.cooldown_until spec.name - g.clock) g in
        if settings.llm_min_interval_ms == 0
        then cooled
        else after_acquire settings (try_acquire settings spec cooled)
