-- ===== src/Iot.antt =====
-- The IoT domain, internal/domains/iot: the device entity, its table, the repository and the
-- device service.
pub mod Device
pub mod Dao
pub mod Repo
pub mod Service
pub mod Proto
pub mod Server
mod Tests
