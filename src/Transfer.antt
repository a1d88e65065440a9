-- ===== src/Transfer.antt =====
-- The transfer of files: src/file_transfer and what it uses of src/io and src/controller/actor.rs.
pub mod Errno
pub mod Worker
pub mod Http
pub mod Store
pub mod Space
pub mod Storage
pub mod Receiver
