-- ===== src/Server.antt =====
-- The server, server/input-server.c.
pub mod State
pub mod Handlers
pub mod Data
pub mod Hello
pub mod Access
pub mod Rounds
pub mod Main
