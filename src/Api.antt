-- ===== src/Api.antt =====
-- The HTTP API of packages/hub/api/router.go.
pub mod Token
pub mod Http
pub mod Auth
pub mod Hub
pub mod Tests
