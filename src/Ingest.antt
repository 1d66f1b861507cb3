-- ===== src/Ingest.antt =====
-- Ingestion: the validation of events (`Domain`; `Normal`), the replay injector (`Injector`;
-- `Resume`, `Once` and `Again` are its proofs), the batch store (`Repository`; `Keys` and `Stored`)
-- and the stream normalizer (`Normalizer`; `Acked` and `Settle`).
pub mod Injector
pub mod Resume
pub mod Once
pub mod Again
pub mod Repository
pub mod Stored
pub mod Keys
pub mod Normalizer
pub mod Acked
pub mod Settle
pub mod Domain
pub mod Normal
mod Tests
