-- ===== src/Llm/Again.antt =====
-- The same request twice, through the cache of src/app/llm/gateway.py.
use sentraxis.Prelude.{
  ℕ, ◌<◌, ◌+◌, ◌≡◌, ◌≢◌, refl, inl, inr, ◌∙◌, sym, subst, ap, Option, none, some, List, [], ◌∷◌,
  Text, true, false, lt→ltb, length, arith,
}
use sentraxis.Llm.Providers.{Settings, ProviderSpec}
use sentraxis.Llm.Client.{Message, World, Cached, Store, Gateway, live_entry, redis_get}
use sentraxis.Llm.Attempts.{LlmResult}
use sentraxis.Llm.Gateway.{chat, cached_result, cache_key, bust, answer_from, chat_json}
use sentraxis.Llm.Bounds.{Remembers}
use sentraxis.Llm.Verdict.{Explains, chat_json_lem}

module _ (P : Type 0) (w : World P) where
  live_entry-eq_some :
      (clock : ℕ) (e : Cached P) → clock < e.expires_at → live_entry P clock (some e) ≡ some e
  unfolding live_entry
  live_entry-eq_some clock e h = rw (lt→ltb _ _ h) refl

  -- A read that Redis answers.
  redis_get-eq :
      {A : Type 0} (read : Store P → Option A) (g : Gateway P) (s : Store P)
      → g.redis ≡ some s
      → w.outage g.commands ≡ false
      → ((redis_get P w read g).0 ≡ read s) × ((redis_get P w read g).1.sent ≡ g.sent)
  unfolding redis_get
  redis_get-eq read g s e up = (rw (e, up) refl, rw (e, up) refl)

  -- A request whose answer the cache remembers.
  pub chat_json-Remembers :
      (settings : Settings) (p : ProviderSpec) (ps : List ProviderSpec) (purpose : Text)
      (messages : List Message) (r : LlmResult P) (g : Gateway P)
      → Remembers P w (cache_key P w purpose messages (p ∷ ps)) r g
      → w.outage g.commands ≡ false
      → let again = chat_json P w settings (p ∷ ps) purpose messages none g in
        (e : Cached P) × (again.0
          ≡ chat (cached_result P (cache_key P w purpose messages (p ∷ ps)) e))
        × (e.payload ≡ r.payload)
        × (e.raw_content ≡ r.raw_content)
        × (again.1.sent ≡ g.sent)
  unfolding chat_json bust answer_from
  chat_json-Remembers settings p ps purpose messages r g (s, e, a, b, c, d, live) up =
      let key = cache_key P w purpose messages (p ∷ ps) in
      let read : Store P → Option (Cached P) = λ t. live_entry P g.clock (t.cache key) in
      let (got, same) = redis_get-eq read g s a up in
      let hit = got ∙ ap (live_entry P g.clock) b ∙ live_entry-eq_some g.clock e live in
      let asked = redis_get P w read g in
      (
        e,
        subst
            (λ o.
              (answer_from P w settings (p ∷ ps) messages key o asked.1).0
              ≡ chat (cached_result P key e))
            (sym hit) refl,
        c,
        d,
        subst (λ o. (answer_from P w settings (p ∷ ps) messages key o asked.1).1.sent ≡ g.sent)
            (sym hit) same,
      )

  -- A call that answered, with Redis still in use and answering the next command: the same request
  -- made again, with no time passed, is answered from the cache, with the same object and the same
  -- raw text, at no tokens and without a request.
  pub chat_json-again :
      (settings : Settings) (chain : List ProviderSpec) (purpose : Text) (messages : List Message)
      (bust_cache_key : Option Text) (g : Gateway P) (r : LlmResult P)
      → let first = chat_json P w settings chain purpose messages bust_cache_key g in
        let again = chat_json P w settings chain purpose messages none first.1 in
        first.0 ≡ chat r
        → first.1.redis ≢ none
        → w.outage first.1.commands ≡ false
        → (r' : LlmResult P) × (again.0 ≡ chat r')
          × (r'.payload ≡ r.payload)
          × (r'.raw_content ≡ r.raw_content)
          × (r'.cache_hit ≡ true)
          × (r'.prompt_tokens + r'.completion_tokens ≡ 0)
          × (again.1.sent ≡ first.1.sent)
  unfolding chat_json cached_result
  chat_json-again settings [] purpose messages bust_cache_key g r answered up next = cc
  chat_json-again settings (p ∷ ps) purpose messages bust_cache_key g r answered up next =
      let first = chat_json P w settings (p ∷ ps) purpose messages bust_cache_key g in
      let key = cache_key P w purpose messages (p ∷ ps) in
      let told = chat_json_lem P w settings (p ∷ ps) purpose messages bust_cache_key g in
      let kept =
        (subst (λ c. Explains P w key (length (p ∷ ps)) g.sent c first.1) answered told.2).1 in
      elim kept [
        | inl gone ↦ absurd (up gone)
        | inr remembered ↦
            let (e, a, b, c, d) =
              chat_json-Remembers settings p ps purpose messages r first.1 remembered next in
            (cached_result P key e, a, b, c, refl, omega arith, d)
      ]
