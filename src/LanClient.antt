-- ===== src/LanClient.antt =====
-- DdingGameServer/RIO_Core/MultiLanClient.cpp and MultiLanClient.h: the channels from the game server to
-- the other servers.
pub mod Channels
pub mod Post
pub mod Order
pub mod Receive
pub mod Reconnect
pub mod Start
pub mod Stop
