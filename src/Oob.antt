-- ===== src/Oob.antt =====
-- The out-of-band approval package: messaging/oob.
pub mod FullAccess
pub mod Reply
pub mod Challenge
