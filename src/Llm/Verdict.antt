-- ===== src/Llm/Verdict.antt =====
-- What each result of chat_json in src/app/llm/gateway.py means, and its number of requests.
use sentraxis.Prelude.{
  ℕ, suc, ◌+◌, ◌*◌, ◌≤◌, ◌<◌, ◌≡◌, refl, ◌⊎◌, inl, inr, ◌∙◌, sym, subst, true, false, Option, none,
  some, List, [], ◌∷◌, ◌++◌, Text, length, length-append, arith, Bool-cases,
}
use sentraxis.Llm.Providers.{Settings, ProviderSpec}
use sentraxis.Llm.Client.{
  Message, World, Cached, Store, Gateway, live_entry, redis_get, budget_allows, record_budget_spend,
}
use sentraxis.Llm.Attempts.{CallError, uncaught, LlmResult, returned, raised, call_with_retries}
use sentraxis.Llm.Gateway.{
  ProviderError, daily_budget_exhausted, failed, is_caught, ChatResult, chat,
  no_providers_configured, budget_exhausted, all_providers_failed, propagated, cached_result,
  cache_key, try_providers, bust, answer_from, chat_json,
}
use sentraxis.Llm.Kept.{Found, spend-Kept, read-Found}
use sentraxis.Llm.Bounds.{
  IsFresh, Answers, Bounded, CallResult-cases, run_attempts-Bounded, redis_get-sent,
  redis_write-sent, Kept, budget_allows-sent,
}
use sentraxis.Llm.Tally.{Tally, Tally-budget, Tally-failed, uncaught_only}

module _ (P : Type 0) (w : World P) where
  -- What the result tells, for so many providers, of the requests sent before and of the state.
  abbrev pub Explains : Text → (providers before : ℕ) → ChatResult P → Gateway P → Type 0
  Explains key providers before (chat r) g =
      (((r.cache_hit ≡ true) × (r.cache_key ≡ key) × (g.sent ≡ before))
        ⊎ (IsFresh P w key r × (before < g.sent)))
      × Kept P w key r g
  Explains key providers before no_providers_configured g = (providers ≡ 0) × (g.sent ≡ before)
  Explains key providers before (budget_exhausted errors) g =
      (0 < providers) × (length errors ≡ providers) × (g.sent ≡ before)
  Explains key providers before (all_providers_failed errors) g =
      (0 < providers) × (length errors ≡ providers) × (before < g.sent)
  Explains key providers before (propagated e) g = (e ≡ uncaught) × (before < g.sent)

  abbrev Told : Text → (providers before least most : ℕ) → ChatResult P × Gateway P → Type 0
  Told key providers before least most ran =
      (least ≤ ran.1.sent) × (ran.1.sent ≤ most) × Explains key providers before ran.0 ran.1

  Told-mono :
      (key : Text) (providers before least most least' most' : ℕ) (ran : ChatResult P × Gateway P)
      → least' ≤ least
      → most ≤ most'
      → Told key providers before least most ran
      → Told key providers before least' most' ran
  Told-mono key providers before least most least' most' ran a b (x, y, z) =
      (omega arith, omega arith, z)

  call_with_retries-Bounded :
      (settings : Settings) (spec : ProviderSpec) (messages : List Message) (key : Text)
      (g : Gateway P)
      → Bounded P w key
          (suc g.sent)
          (g.sent + 3)
          (call_with_retries P w settings spec messages key g)
  unfolding call_with_retries
  call_with_retries-Bounded settings spec messages key g =
      let (x, y, z) = run_attempts-Bounded P w settings spec messages key (1 ∷ 2 ∷ 3 ∷ []) g in
      (omega (arith, x), y, z)

  record_budget_spend-sent :
      (spec : ProviderSpec) (g : Gateway P) → (record_budget_spend P w spec g).sent ≡ g.sent
  unfolding record_budget_spend
  record_budget_spend-sent spec g = redis_write-sent P w _ g

  module _ (settings : Settings) (messages : List Message) (key : Text)
      (errors : List ProviderError) (spec : ProviderSpec) (specs : List ProviderSpec)
      (g : Gateway P) where
    pub try_providers-returned :
        (r : LlmResult P)
        → (budget_allows P w settings spec g).0 ≡ true
        → (call_with_retries P w settings spec messages key (budget_allows P w settings spec g).1).0
          ≡ returned r
        → try_providers P w settings messages key errors (spec ∷ specs) g ≡ (
          chat r,
          record_budget_spend P w spec
              (call_with_retries P w settings spec messages key
                (budget_allows P w settings spec g).1).1,
        )
    unfolding try_providers
    try_providers-returned r e q = rw (e, q, try_providers) refl

    pub try_providers-propagated :
        (err : CallError)
        → (budget_allows P w settings spec g).0 ≡ true
        → (call_with_retries P w settings spec messages key (budget_allows P w settings spec g).1).0
          ≡ raised err
        → is_caught err ≡ false
        → try_providers P w settings messages key errors (spec ∷ specs) g ≡ (
          propagated err,
          (call_with_retries P w settings spec messages key
              (budget_allows P w settings spec g).1).1,
        )
    unfolding try_providers
    try_providers-propagated err e q u = rw (e, q, u, try_providers) refl

  try_providers-Told :
      (settings : Settings) (messages : List Message) (key : Text) (before total : ℕ)
      (errors : List ProviderError) (specs : List ProviderSpec) (g : Gateway P)
      → 0 < total
      → length errors + length specs ≡ total
      → before ≤ g.sent
      → Tally errors before g.sent
      → Told key total before g.sent
          (g.sent + 3 * length specs)
          (try_providers P w settings messages key errors specs g)
  unfolding try_providers
  try_providers-Told settings messages key before total errors [] g some' n le (inl (e, same)) =
      rw (e, Explains) (omega arith, omega arith, (omega arith, omega arith, same))
  try_providers-Told settings messages key before total errors [] g some' n le (inr (e, more)) =
      rw (e, Explains) (omega arith, omega arith, (omega arith, omega arith, more))
  try_providers-Told settings messages key before total errors (spec ∷ specs) g some' n le t =
      let asked = budget_allows P w settings spec g in
      let called = call_with_retries P w settings spec messages key asked.1 in
      let same = budget_allows-sent P w settings spec g in
      let (x, y, z) = call_with_retries-Bounded settings spec messages key asked.1 in
      elim (Bool-cases asked.0) [
        | inr e ↦
            rw (e, Told, try_providers)
              (Told-mono key total before _ _ _ _
                (try_providers P w settings messages key
                  (errors ++ (daily_budget_exhausted spec.name ∷ [])) specs asked.1)
                (omega (arith, same)) (omega (arith, same))
                (try_providers-Told settings messages key before total _ specs asked.1 some'
                  (omega (arith, n, length-append errors (daily_budget_exhausted spec.name ∷ [])))
                  (omega (arith, same))
                  (Tally-budget errors spec.name before g.sent asked.1.sent same t)))
        | inl e ↦ elim (CallResult-cases P w called.0) [
          | inl (r, q) ↦
              let answered = subst (λ c. Answers P w key c called.1) q z in
              let spent = record_budget_spend-sent spec called.1 in
              subst (Told key total before g.sent _)
                (sym (try_providers-returned settings messages key errors spec specs g r e q))
                (
                  omega (arith, same, x, spent),
                  omega (arith, same, y, spent),
                  (
                    inr (answered.0, omega (arith, same, x, spent, le)),
                    spend-Kept P w key r spec called.1 answered.1,
                  ),
                )
          | inr (err, q) ↦ elim (Bool-cases (is_caught err)) [
            | inr u ↦
                subst (Told key total before g.sent _)
                  (sym
                    (try_providers-propagated settings messages key errors spec specs g err e q u))
                  (
                    omega (arith, same, x),
                    omega (arith, same, y),
                    (uncaught_only err u, omega (arith, same, x, le)),
                  )
            | inl u ↦
                rw (e, q, u, Told, try_providers)
                  (Told-mono key total before _ _ _ _
                    (try_providers P w settings messages key (errors ++ (failed spec.name err ∷ []))
                      specs called.1)
                    (omega (arith, same, x)) (omega (arith, same, y))
                    (try_providers-Told settings messages key before total _ specs called.1 some'
                      (omega (arith, n, length-append errors (failed spec.name err ∷ [])))
                      (omega (arith, same, x, le))
                      (Tally-failed errors spec.name err before g.sent called.1.sent
                        (omega (arith, same, x)) t)))
          ]
        ]
      ]

  bust-sent :
      (key : Text) (asked : Option Text) (g : Gateway P) → (bust P w key asked g).sent ≡ g.sent
  unfolding bust
  bust-sent key none g = refl
  bust-sent key (some []) g = refl
  bust-sent key (some (c ∷ cs)) g = grind (arith, redis_write-sent)

  answer_from-Told :
      (settings : Settings) (chain : List ProviderSpec) (messages : List Message) (key : Text)
      (before : ℕ) (entry : Option (Cached P)) (g : Gateway P)
      → 0 < length chain
      → g.sent ≡ before
      → Found P w key entry g
      → Told key
          (length chain)
          before
          before
          (before + 3 * length chain)
          (answer_from P w settings chain messages key entry g)
  unfolding answer_from cached_result
  answer_from-Told settings chain messages key before (some hit) g some' same (s, e, q, live) =
      (omega arith, omega arith, (inl (refl, refl, same), inr (s, hit, e, q, refl, refl, live)))
  answer_from-Told settings chain messages key before none g some' same found =
      Told-mono key (length chain) before _ _ _ _
        (try_providers P w settings messages key [] chain g) (omega arith) (omega arith)
        (try_providers-Told settings messages key before (length chain) [] chain g some'
          (omega arith) (omega arith) (inl (refl, same)))

  -- A call ends after at most three requests for each configured provider. Without providers it
  -- says so; a budget report comes without any request, and the report that all failed after one
  -- or more, each with one error per provider; what escapes is an exception that is not caught,
  -- after a request; a cached answer costs no request, and any other answer is the object that its
  -- raw text parses to.
  pub chat_json_lem :
      (settings : Settings) (chain : List ProviderSpec) (purpose : Text) (messages : List Message)
      (bust_cache_key : Option Text) (g : Gateway P)
      → let ran = chat_json P w settings chain purpose messages bust_cache_key g in
        (g.sent ≤ ran.1.sent)
        × (ran.1.sent ≤ g.sent + 3 * length chain)
        × Explains (cache_key P w purpose messages chain) (length chain) g.sent ran.0 ran.1
  unfolding chat_json
  chat_json_lem settings [] purpose messages bust_cache_key g =
      (omega arith, omega arith, (refl, refl))
  chat_json_lem settings (p ∷ ps) purpose messages bust_cache_key g =
      let key = cache_key P w purpose messages (p ∷ ps) in
      let busted = bust P w key bust_cache_key g in
      let read : Store P → Option (Cached P) = λ s. live_entry P busted.clock (s.cache key) in
      let asked = redis_get P w read busted in
      answer_from-Told settings (p ∷ ps) messages key g.sent asked.0 asked.1 (omega arith)
        (redis_get-sent P w read busted ∙ bust-sent key bust_cache_key g)
        (read-Found P w key busted)
