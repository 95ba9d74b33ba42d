-- ===== src/Cmd.antt =====
-- cmd/paste: the program.
pub mod Console
pub mod Clients
pub mod Columns
pub mod ApiKeys
pub mod Ping
pub mod Routes
pub mod Frontend
pub mod Options
pub mod Factory
pub mod Server
pub mod Main
