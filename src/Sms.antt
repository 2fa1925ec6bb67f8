-- ===== src/Sms.antt =====
-- The SMS domain, internal/domains/sms: verification codes by text message.
pub mod Code
pub mod Cache
pub mod Record
pub mod Repo
pub mod Service
mod Tests
