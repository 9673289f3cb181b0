-- ===== src/Auth.antt =====
-- The auth service: internal/auth.
pub mod Types
pub mod ConnectKey
pub mod Memory
pub mod Postgres
pub mod Http
mod Tests
