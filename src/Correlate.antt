-- ===== src/Correlate.antt =====
-- src/app/correlation and src/app/workers/correlator.py: `Rules` groups detections by entity and time
-- (`Clusters`, `Covers`, `Members`, `Sorted` and `Apart` show what the groups are), `Draft` makes an
-- incident of a group (`Names`, `Drafted`). `Attack`, `Analysis`, `Facts` and `Agent` are the agent
-- that enriches an incident, `Accepted` and `Trusted` what it lets through. `Worker` is the worker,
-- with its proofs from `Linked` to `Run`.
pub mod Rules
pub mod Clusters
pub mod Covers
pub mod Draft
pub mod Names
pub mod Drafted
pub mod Sorted
pub mod Apart
pub mod Attack
pub mod Analysis
pub mod Accepted
pub mod Facts
pub mod Agent
pub mod Trusted
pub mod Worker
pub mod Members
pub mod Linked
pub mod Rounds
pub mod Ticked
pub mod Pending
pub mod Drain
pub mod Run
mod Tests
