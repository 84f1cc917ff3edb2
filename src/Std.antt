-- ===== src/Std.antt =====
-- What the sources use of Rust's standard library.
pub mod Exec
pub mod Keeps
pub mod HashMap
pub mod Ffi
pub mod Sort
pub mod Text
pub mod Arc
pub mod Output
