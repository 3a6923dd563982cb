-- ===== src/Server.antt =====
-- internal/server: which requests a listener serves, and the redirect handler.
pub mod Console
pub mod Mfa
pub mod Login
pub mod Identity
pub mod Users
pub mod Links
pub mod Plane
pub mod Redirect
pub mod Tests
