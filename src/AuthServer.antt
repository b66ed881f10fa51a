-- ===== src/AuthServer.antt =====
-- AuthServer/AuthServer: the game servers that are registered, and the game server's side of it.
pub mod Registry
pub mod Sessions
pub mod DbThread
pub mod DbConnector
