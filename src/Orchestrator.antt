-- ===== src/Orchestrator.antt =====
-- src/app/workers/orchestrator.py: incidents become policy-gated actions. `Store` has the tables
-- that it reads and writes, `Transition`, `Execute`, `Tick` and `Decide` its methods, `Machine` an
-- abstract machine with one rule for each kind of change, `Seed` the default playbooks, `Example`
-- test data, and the other children the proofs.
pub mod Store
pub mod Transition
pub mod Execute
pub mod Tick
pub mod Decide
pub mod Machine
pub mod Moves
pub mod Running
pub mod Refine
pub mod Guarantees
pub mod Expiry
pub mod Decision
pub mod Outcome
pub mod Seed
pub mod Example
mod Tests
