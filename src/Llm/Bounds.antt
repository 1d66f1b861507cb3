-- ===== src/Llm/Bounds.antt =====
-- How many requests chat_json of src/app/llm/gateway.py sends, and what its results mean.
use sentraxis.Prelude.{
  ℕ, suc, ◌+◌, ◌/◌, ◌≤◌, ◌<◌, text_eq_refl, ◌≡◌, refl, ◌⊎◌, inl, inr, ◌∙◌, false, Option, none,
  some, List, [], ◌∷◌, Text, length, min, subst, ap, arith, Bool-cases, Option-cases,
}
use sentraxis.Llm.Providers.{Settings, ProviderSpec}
use sentraxis.Llm.Client.{
  Message, Response, Reply, response, timed_out, unreachable, World, day, Body, Cached, Store,
  Gateway, sleep, engage_cooldown, set_at, redis_get, redis_write, budget_allows, try_acquire,
  after_acquire, pace,
}
use sentraxis.Llm.Attempts.{
  CallError, is_success, LlmResult, CallResult, returned, raised, store_entry, new_result, finish,
  read_body, read_response, read_reply, call_once, Retry, again, stop, after_backoff, after_error,
  run_attempts,
}

module _ (P : Type 0) (w : World P) where
  pub redis_get-sent :
      {A : Type 0} (read : Store P → Option A) (g : Gateway P)
      → (redis_get P w read g).1.sent ≡ g.sent
  unfolding redis_get
  redis_get-sent read g = ground arith

  pub redis_write-sent :
      (write : Store P → Store P) (g : Gateway P) → (redis_write P w write g).sent ≡ g.sent
  unfolding redis_write
  redis_write-sent write g = ground arith

  pub budget_allows-sent :
      (settings : Settings) (spec : ProviderSpec) (g : Gateway P)
      → (budget_allows P w settings spec g).1.sent ≡ g.sent
  unfolding budget_allows redis_get
  budget_allows-sent settings spec g = ground arith

  try_acquire-sent :
      (settings : Settings) (spec : ProviderSpec) (g : Gateway P)
      → (try_acquire P w settings spec g).1.sent ≡ g.sent
  unfolding try_acquire
  try_acquire-sent settings spec g = ground arith

  pace-sent :
      (settings : Settings) (spec : ProviderSpec) (g : Gateway P)
      → (pace P w settings spec g).sent ≡ g.sent
  unfolding pace after_acquire sleep try_acquire
  pace-sent settings spec g = ground arith

  read_response-sent :
      (spec : ProviderSpec) (key : Text) (latency_ms : ℕ) (r : Response) (g : Gateway P)
      → (read_response P w spec key latency_ms r g).1.sent ≡ g.sent
  unfolding read_response read_body finish redis_write
  read_response-sent spec key latency_ms r g = ground arith

  call_once-sent :
      (spec : ProviderSpec) (messages : List Message) (key : Text) (g : Gateway P)
      → (call_once P w spec messages key g).1.sent ≡ suc g.sent
  unfolding call_once read_reply
  call_once-sent spec messages key g = grind (arith, read_response-sent)

  -- What a new result holds: the object that its raw text parses to, under the key of the request.
  abbrev pub IsFresh : Text → LlmResult P → Type 0
  IsFresh key r =
      (r.cache_hit ≡ false) × (r.cache_key ≡ key) × (w.parse_object r.raw_content ≡ some r.payload)

  -- The cache holds the answer under the key, and it has not expired.
  abbrev pub Remembers : Text → LlmResult P → Gateway P → Type 0
  Remembers key r g =
      (s : Store P) × (e : Cached P) × (g.redis ≡ some s)
      × (s.cache key ≡ some e)
      × (e.payload ≡ r.payload)
      × (e.raw_content ≡ r.raw_content)
      × (g.clock < e.expires_at)

  -- The answer is in the cache, or Redis was given up.
  abbrev pub Kept : Text → LlmResult P → Gateway P → Type 0
  Kept key r g = (g.redis ≡ none) ⊎ Remembers key r g

  abbrev pub Answers : Text → CallResult P → Gateway P → Type 0
  Answers key (returned r) g = IsFresh key r × Kept key r g
  Answers key (raised e) g = Unit

  pub redis_write-cases :
      (write : Store P → Store P) (g : Gateway P)
      → ((redis_write P w write g).redis ≡ none)
        ⊎ ((s : Store P) × (g.redis ≡ some s)
            × ((redis_write P w write g).redis ≡ some (write s))
            × ((redis_write P w write g).clock ≡ g.clock))
  unfolding redis_write
  redis_write-cases write g = elim (Option-cases g.redis) [
    | inl e ↦ inl (rw e refl)
    | inr (s, e) ↦ elim (Bool-cases (w.outage g.commands)) [
      | inl q ↦ inl (rw (e, q) refl)
      | inr q ↦ inr (s, e, rw (e, q) refl, rw (e, q) refl)
    ]
  ]

  store_entry-Kept :
      (key : Text) (r : LlmResult P) (g : Gateway P)
      → Kept key r (redis_write P w (store_entry P key r g.clock) g)
  unfolding store_entry set_at
  store_entry-Kept key r g = elim (redis_write-cases (store_entry P key r g.clock) g) [
    | inl e ↦ inl e
    | inr (s, e, q, c) ↦ inr (
      store_entry P key r g.clock s,
      record {
        payload = r.payload;
        raw_content = r.raw_content;
        provider = r.provider;
        model = r.model;
        expires_at = g.clock + day;
      },
      q,
      rw (text_eq_refl key) refl,
      refl,
      refl,
      omega (arith, c),
    )
  ]

  finish-Answers :
      (spec : ProviderSpec) (key : Text) (latency_ms : ℕ) (b : Body) (parsed : Option P)
      (g : Gateway P)
      → w.parse_object b.content ≡ parsed
      → let ran = finish P w spec key latency_ms b parsed g in Answers key ran.0 ran.1
  unfolding finish new_result
  finish-Answers spec key latency_ms b none g e = tt
  finish-Answers spec key latency_ms b (some payload) g e =
      ((refl, refl, e), store_entry-Kept key (new_result P w spec key latency_ms b payload) g)

  read_body-Answers :
      (spec : ProviderSpec) (key : Text) (latency_ms : ℕ) (body : Option Body) (g : Gateway P)
      → let ran = read_body P w spec key latency_ms body g in Answers key ran.0 ran.1
  unfolding read_body
  read_body-Answers spec key latency_ms none g = tt
  read_body-Answers spec key latency_ms (some b) g =
      finish-Answers spec key latency_ms b (w.parse_object b.content) g refl

  read_response-Answers :
      (spec : ProviderSpec) (key : Text) (latency_ms : ℕ) (r : Response) (g : Gateway P)
      → let ran = read_response P w spec key latency_ms r g in Answers key ran.0 ran.1
  unfolding read_response
  read_response-Answers spec key latency_ms r g = elim (Bool-cases (is_success r.status_code)) [
    | inr e ↦ rw (e, Answers) tt
    | inl e ↦ rw e (read_body-Answers spec key latency_ms r.body g)
  ]

  call_once-Answers :
      (spec : ProviderSpec) (messages : List Message) (key : Text) (g : Gateway P)
      → let ran = call_once P w spec messages key g in Answers key ran.0 ran.1
  unfolding call_once read_reply
  call_once-Answers spec messages key g =
      let (answer, time) = w.reply g.sent spec messages in
      reply answer (time / 1000) (record g { sent = suc g.sent; clock = g.clock + time })
    where
      reply :
          (answer : Reply) (latency_ms : ℕ) (g : Gateway P)
          → let ran = read_reply P w spec key latency_ms answer g in Answers key ran.0 ran.1
      reply (response r) latency_ms g = read_response-Answers spec key latency_ms r g
      reply timed_out latency_ms g = tt
      reply unreachable latency_ms g = tt

  abbrev Sent : ℕ → Retry P w → Type 0
  Sent n (again g) = g.sent ≡ n
  Sent n (stop e g) = g.sent ≡ n

  after_error-sent :
      (spec : ProviderSpec) (attempt : ℕ) (e : CallError) (g : Gateway P)
      → let next = after_error P w spec attempt e g in Sent g.sent next
  unfolding after_error after_backoff engage_cooldown sleep
  after_error-sent spec attempt e g = ground (arith, Sent)

  pub CallResult-cases :
      (c : CallResult P)
      → ((r : LlmResult P) × (c ≡ returned r)) ⊎ ((e : CallError) × (c ≡ raised e))
  CallResult-cases (returned r) = inl (r, refl)
  CallResult-cases (raised e) = inr (e, refl)

  Retry-cases :
      (x : Retry P w)
      → ((g : Gateway P) × (x ≡ again g)) ⊎ ((y : CallError × Gateway P) × (x ≡ stop y.0 y.1))
  Retry-cases (again g) = inl (g, refl)
  Retry-cases (stop e g) = inr ((e, g), refl)

  -- The requests of a run from `n` sent ones, and its result.
  abbrev pub Bounded : Text → (least most : ℕ) → CallResult P × Gateway P → Type 0
  Bounded key least most ran = (least ≤ ran.1.sent) × (ran.1.sent ≤ most) × Answers key ran.0 ran.1

  pub run_attempts-Bounded :
      (settings : Settings) (spec : ProviderSpec) (messages : List Message) (key : Text)
      (attempts : List ℕ) (g : Gateway P)
      → Bounded key
          (g.sent + min 1 (length attempts))
          (g.sent + length attempts)
          (run_attempts P w settings spec messages key attempts g)
  unfolding run_attempts
  run_attempts-Bounded settings spec messages key [] g = (omega arith, omega arith, tt)
  run_attempts-Bounded settings spec messages key (attempt ∷ attempts) g =
      let paced = pace P w settings spec g in
      let called = call_once P w spec messages key paced in
      let sent = call_once-sent spec messages key paced ∙ ap suc (pace-sent settings spec g) in
      elim (CallResult-cases called.0) [
        | inl (r, e) ↦
            rw (e, Bounded, run_attempts)
              (
                omega (arith, sent),
                omega (arith, sent),
                subst (λ c. Answers key c called.1) e (call_once-Answers spec messages key paced),
              )
        | inr (err, e) ↦
            let next = after_error-sent spec attempt err called.1 in
            elim (Retry-cases (after_error P w spec attempt err called.1)) [
              | inl (g', q) ↦
                  let (a, b, c) = run_attempts-Bounded settings spec messages key attempts g' in
                  let same = subst (Sent called.1.sent) q next in
                  rw (e, q, Bounded, run_attempts)
                    (omega (arith, a, same, sent), omega (arith, b, same, sent), c)
              | inr (y, q) ↦
                  let same = subst (Sent called.1.sent) q next in
                  rw (e, q, Bounded, run_attempts)
                    (omega (arith, same, sent), omega (arith, same, sent), tt)
            ]
      ]
