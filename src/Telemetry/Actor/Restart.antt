-- ===== src/Telemetry/Actor/Restart.antt =====
-- What the file keeps: the configuration and the tasks of a runtime that starts again.
mod Overlay
mod Defaults
pub mod Resumes
