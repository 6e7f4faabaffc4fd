-- ===== src/Handler.antt =====
-- internal/handler
pub mod Logs
pub mod Analytics
pub mod Keys
pub mod Accounts
pub mod System
