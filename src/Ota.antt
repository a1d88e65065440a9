-- ===== src/Ota.antt =====
-- The over-the-air update: src/ota.
pub mod Status
pub mod Event
pub mod Env
pub mod Wget
pub mod Update
pub mod Machine
pub mod Handler
mod Tests
