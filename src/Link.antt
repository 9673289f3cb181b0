-- ===== src/Link.antt =====
-- The client and the server together: internal/akira-client/connection and
-- internal/akira-server/connection/server, with the pool under it and the auth store behind it.
pub mod Retry
pub mod Results
pub mod Revoked
mod Tests
