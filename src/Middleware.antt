-- ===== src/Middleware.antt =====
-- internal/middleware
pub mod RequestLogger
pub mod Tiers
pub mod Auth
pub mod Context
pub mod Sequence
pub mod Chain
