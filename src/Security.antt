-- ===== src/Security.antt =====
-- security/: sessions, group privileges and the token verifier.
pub mod Sessions
pub mod Privilege
pub mod Tokens
pub mod Provider
