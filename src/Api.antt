-- ===== src/Api.antt =====
-- The HTTP layer: `Auth` is src/app/api/deps.py, src/app/api/auth.py and src/app/security.py;
-- `Actions` is src/app/api/actions.py, `Incidents` src/app/api/incidents.py, `Pages` the listings of
-- both; `Session` runs requests and worker ticks one after the other.
pub mod Auth
pub mod Login
pub mod Actions
pub mod Replay
pub mod Session
pub mod Pages
pub mod Incidents
pub mod Unpacked
mod Tests
