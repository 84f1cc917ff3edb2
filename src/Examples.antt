-- ===== src/Examples.antt =====
-- The programs under examples/.
pub mod Output
pub mod CurrentUser
pub mod Switching
pub mod Threading
pub mod Listing
pub mod Groups
pub mod Profile
