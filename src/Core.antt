-- ===== src/Core.antt =====
-- app/core: texts, error codes, passwords and tokens.
pub mod Text
pub mod Errors
pub mod Security
