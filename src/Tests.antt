-- ===== src/Tests.antt =====
-- Every theorem of the development at a concrete input.
pub mod RioModel
pub mod RioExamples
pub mod Others
pub mod Servers
pub mod Tables
pub mod Broadcasts
pub mod Database
pub mod Threads
pub mod Names
pub mod Network
pub mod Startup
pub mod Lifecycles
pub mod Pools
pub mod Zones
pub mod Timing
pub mod Reconnections
