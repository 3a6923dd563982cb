-- ===== src/Auth.antt =====
-- internal/auth: signed values.
pub mod SignedCookie
pub mod Totp
pub mod Tests
