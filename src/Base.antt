-- ===== src/Base.antt =====
-- base.rs: the calls of the C library, and the values that are made of what it returns.
pub mod MacOs
pub mod Logging
pub mod Types
pub mod Raw
pub mod Lookup
pub mod Directory
pub mod Process
pub mod GroupLists
pub mod AllUsers
pub mod Bsd
pub mod Ext
pub mod Debug
