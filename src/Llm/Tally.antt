-- ===== src/Llm/Tally.antt =====
-- The list `errors` of chat_json in src/app/llm/gateway.py, and the calls that it stands for.
use sentraxis.Prelude.{
  ℕ, ◌<◌, ◌≡◌, refl, ◌⊎◌, true, false, List, [], ◌∷◌, ◌++◌, Text, all, arith, ◌&&◌,
}
use sentraxis.Llm.Attempts.{CallError, http_status, timeout, gateway_error, uncaught}
use sentraxis.Llm.Gateway.{
  ProviderError, daily_budget_exhausted, failed, is_caught, is_budget_error,
}

-- Some provider was called, or none was and every error so far is about the budget.
abbrev pub Tally : List ProviderError → (before now : ℕ) → Type 0
Tally errors before now =
    ((all is_budget_error errors ≡ true) × (now ≡ before))
    ⊎ ((all is_budget_error errors ≡ false) × (before < now))

all-snoc :
    (errors : List ProviderError) (e : ProviderError)
    → all is_budget_error (errors ++ (e ∷ [])) ≡ (all is_budget_error errors && is_budget_error e)
all-snoc [] e = ground arith
all-snoc (x ∷ errors) e = ground (arith, all-snoc errors e)

pub Tally-budget :
    (errors : List ProviderError) (name : Text) (before now now' : ℕ)
    → now' ≡ now
    → Tally errors before now
    → Tally (errors ++ (daily_budget_exhausted name ∷ [])) before now'
unfolding is_budget_error
Tally-budget errors name before now now' same t =
    ground (arith, all-snoc errors (daily_budget_exhausted name))

pub Tally-failed :
    (errors : List ProviderError) (name : Text) (e : CallError) (before now now' : ℕ)
    → now < now'
    → Tally errors before now
    → Tally (errors ++ (failed name e ∷ [])) before now'
unfolding is_budget_error
Tally-failed errors name e before now now' more t = ground (arith, all-snoc errors (failed name e))

pub uncaught_only : (e : CallError) → is_caught e ≡ false → e ≡ uncaught
unfolding is_caught
uncaught_only (http_status r) h = cc
uncaught_only timeout h = cc
uncaught_only gateway_error h = cc
uncaught_only uncaught h = refl
