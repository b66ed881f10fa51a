-- ===== src/DbServer.antt =====
-- DBServer/DBServer: the server in front of the database.
pub mod Batches
pub mod Waiting
pub mod Odbc
pub mod Procedures
pub mod Lifecycle
pub mod SqlTypes
pub mod Metadata
pub mod ProcedureNames
pub mod Calls
pub mod Connections
pub mod Classes
