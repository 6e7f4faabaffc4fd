-- ===== src/Service.antt =====
-- internal/service
pub mod ApiKeys
pub mod Auth
pub mod Analytics
