-- ===== src/Detect.antt =====
-- The detectors: `Float` is Python's float as an interface, `Base` is src/app/detectors/base.py,
-- `Ports` and `Rate` the two detector classes, `Engine` their common loop, `Worker` is
-- src/app/workers/detector.py, and the others are the proofs.
pub mod Float
pub mod Base
pub mod Bucket
pub mod Engine
pub mod Once
pub mod Ports
pub mod Breadth
pub mod Rate
pub mod Worker
pub mod Delivery
mod Tests
