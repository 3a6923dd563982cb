-- ===== src/Link.antt =====
-- internal/link: short codes, the redirect cache and the link service.
pub mod Code
pub mod Cache
pub mod Service
pub mod Input
pub mod Create
pub mod Update
pub mod Tests
