-- ===== src/Rio.antt =====
-- DdingGameServer/RIO_Core/RIOServer.cpp and RIOSession.cpp: sessions over registered I/O.
pub mod Types
pub mod Release
pub mod Send
pub mod Recv
pub mod Accept
pub mod Broadcast
pub mod Worker
pub mod Steps
pub mod Start
pub mod Counting
