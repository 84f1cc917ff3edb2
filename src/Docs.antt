-- ===== src/Docs.antt =====
-- The examples in the documentation of the crate, as programs.
pub mod Output
pub mod Lookups
pub mod GroupLists
pub mod AllUsers
pub mod Values
pub mod Caching
pub mod Crate
pub mod Mocking
pub mod Switching
