-- ===== src/Tests.antt =====
-- Examples: the theorems applied to concrete systems, clients and messages.
pub mod System
pub mod Sessions
pub mod Slots
pub mod Acl
pub mod Args
pub mod Clients
pub mod Runs
pub mod Osc
pub mod Sockets
pub mod Programs
