-- ===== src/Llm.antt =====
-- src/app/llm/gateway.py: `Providers` builds the chain, `Client` is the gateway's state with its
-- Redis, `Attempts` makes the calls of one provider, and `Gateway` goes through the providers.
pub mod Providers
pub mod Client
pub mod Attempts
pub mod Gateway
pub mod Bounds
pub mod Kept
pub mod Tally
pub mod Verdict
pub mod Again
pub mod Example
mod Tests
