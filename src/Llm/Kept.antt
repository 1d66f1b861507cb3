-- ===== src/Llm/Kept.antt =====
-- The cache of src/app/llm/gateway.py from one command to the next.
use sentraxis.Prelude.{
  ℕ, ◌<◌, ◌/◌, ◌≡◌, refl, ◌⊎◌, inl, inr, ◌∙◌, sym, subst, Option, none, some, Text, ltb, ltb→lt,
  if◌then◌else◌, arith, Bool-cases, Option-cases,
}
use sentraxis.Llm.Providers.{ProviderSpec}
use sentraxis.Llm.Client.{
  World, Cached, Store, Gateway, live_entry, redis_get, record_budget_spend, add_spend, day,
}
use sentraxis.Llm.Attempts.{LlmResult}
use sentraxis.Llm.Bounds.{Kept, redis_write-cases}

some-some : {A : Type 0} {a b : A} → some a ≡ some b → a ≡ b
some-some e = cc

module _ (P : Type 0) (w : World P) where
  pub spend-Kept :
      (key : Text) (r : LlmResult P) (spec : ProviderSpec) (g : Gateway P)
      → Kept P w key r g
      → Kept P w key r (record_budget_spend P w spec g)
  unfolding record_budget_spend add_spend
  spend-Kept key r spec g kept =
      elim (redis_write-cases P w (add_spend P w spec (g.clock / day)) g) [
        | inl e ↦ inl e
        | inr (s, e, q, c) ↦ elim kept [
          | inl gone ↦ cc
          | inr (s', hit, e', q', x, y, z) ↦
              let same = some-some (sym e ∙ e') in
              inr (
                add_spend P w spec (g.clock / day) s,
                hit,
                q,
                subst (λ (t : Store P). t.cache key ≡ some hit) (sym same) q',
                x,
                y,
                omega (arith, c, z),
              )
        ]
      ]

  -- The entry that was read is live under the key.
  abbrev pub Found : Text → Option (Cached P) → Gateway P → Type 0
  Found key none g = Unit
  Found key (some hit) g =
      (s : Store P) × (g.redis ≡ some s) × (s.cache key ≡ some hit) × (g.clock < hit.expires_at)

  live_entry-eq :
      (clock : ℕ) (o : Option (Cached P)) (hit : Cached P)
      → live_entry P clock o ≡ some hit
      → (o ≡ some hit) × (clock < hit.expires_at)
  unfolding live_entry
  live_entry-eq clock none hit h = cc
  live_entry-eq clock (some e) hit h = elim (Bool-cases (ltb clock e.expires_at)) [
    | inl q ↦
        let same : some e ≡ some hit = subst (λ b. (if b then some e else none) ≡ some hit) q h in
        (same, subst (λ (c : Cached P). clock < c.expires_at) (some-some same) (ltb→lt _ _ q))
    | inr q ↦
        let gone : none ≡ some hit = subst (λ b. (if b then some e else none) ≡ some hit) q h in cc
  ]

  pub redis_get-cases :
      {A : Type 0} (read : Store P → Option A) (g : Gateway P)
      → let asked = redis_get P w read g in
        (asked.0 ≡ none)
        ⊎ ((s : Store P) × (asked.0 ≡ read s)
            × (asked.1.redis ≡ some s)
            × (asked.1.clock ≡ g.clock))
  unfolding redis_get
  redis_get-cases read g = elim (Option-cases g.redis) [
    | inl e ↦ inl (rw e refl)
    | inr (s, e) ↦ elim (Bool-cases (w.outage g.commands)) [
      | inl q ↦ inl (rw (e, q) refl)
      | inr q ↦ inr (s, rw (e, q) refl, rw (e, q) refl, rw (e, q) refl)
    ]
  ]

  Found-none : (key : Text) (o : Option (Cached P)) (g : Gateway P) → o ≡ none → Found key o g
  Found-none key none g e = tt
  Found-none key (some hit) g e = cc

  Found-some :
      (key : Text) (o : Option (Cached P)) (g : Gateway P) (s : Store P)
      → g.redis ≡ some s
      → o ≡ live_entry P g.clock (s.cache key)
      → Found key o g
  Found-some key none g s e q = tt
  Found-some key (some hit) g s e q =
      let (x, y) = live_entry-eq g.clock (s.cache key) hit (sym q) in (s, e, x, y)

  pub read-Found :
      (key : Text) (g : Gateway P)
      → let read : Store P → Option (Cached P) = λ s. live_entry P g.clock (s.cache key) in
        let asked = redis_get P w read g in Found key asked.0 asked.1
  read-Found key g =
      let read : Store P → Option (Cached P) = λ s. live_entry P g.clock (s.cache key) in
      let asked = redis_get P w read g in
      elim (redis_get-cases read g) [
        | inl e ↦ Found-none key asked.0 asked.1 e
        | inr (s, e, q, c) ↦ Found-some key asked.0 asked.1 s q (
            e
            ∙ sym (
                subst (λ n. live_entry P n (s.cache key) ≡ live_entry P g.clock (s.cache key))
                  (sym c) refl))
      ]
