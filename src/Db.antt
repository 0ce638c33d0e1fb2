-- ===== src/Db.antt =====
-- db/connection_manager.py: the connection pools, and the calls that read through them.
pub mod Pool
pub mod Columns
pub mod Reads
pub mod Queries
pub mod Manager
