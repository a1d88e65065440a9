-- ===== src/Containers.antt =====
-- The containers service: edgehog-device-runtime-containers.
pub mod Ports
pub mod Resource
pub mod EnvFile
pub mod Plan
pub mod Store
pub mod Handle
pub mod Deployments
pub mod Service
mod Tests
