-- ===== src/GameServer.antt =====
-- GameServer/GameServer: the creatures, the player characters and the maps that hold them.
pub mod Creature
pub mod PcManager
pub mod PcLoading
pub mod LazyRunners
pub mod Objects
