-- ===== src/Server.antt =====
-- The akira server: internal/akira-server.
pub mod Pool
pub mod Connect
pub mod Mcp
