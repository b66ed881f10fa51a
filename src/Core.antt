-- ===== src/Core.antt =====
-- DdingGameServer/RIO_Core beside the sessions: timers, jobs for the database, and the packet tables.
pub mod Timers
pub mod DbJobs
pub mod Packets
pub mod Logger
pub mod Deadlock
