-- ===== src/Tests.antt =====
-- The theorems at concrete inputs, on a small system.
mod System
mod Lookups
mod Switching
mod GivingUp
mod Iterators
mod Caching
mod Preloading
mod Mocking
mod Sharing
mod Asked
mod Targets
mod Logging
mod Documented
mod Readable
mod Unique
mod Programs
mod Threads
