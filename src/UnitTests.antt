-- ===== src/UnitTests.antt =====
-- The tests that stand in the sources: those of base.rs, as programs that panic where an assertion
-- fails, and those of mock.rs, as tests into `Bool`.
pub mod Database
pub mod Mocks
