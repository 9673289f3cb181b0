-- ===== src/Client.antt =====
-- internal/akira-client
pub mod Connection
pub mod Executor
