-- ===== src/Rio/Counting.antt =====
-- The reference count of a session, `ioCount`, against the requests that the kernel holds.
pub mod Defs
pub mod Moves
pub mod Running
pub mod Send
pub mod Recv
pub mod Work
pub mod Enter
pub mod Reachable
