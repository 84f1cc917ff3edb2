-- ===== src/Lib.antt =====
-- Verification of the `users` crate, a library that looks up users and groups, caches what it
-- finds and switches the IDs of a process.
--
-- The parts of the program, and the files that model them:
-- - Libc: the C library, as a record of operations on an open state `World`. src/base.rs and
--   src/switch.rs only call it, so it is a parameter. Libc/Database, Libc/Lists,
--   Libc/Enumeration, Libc/Posix and Libc/Identity name what its documentation promises; each
--   theorem takes those that it needs, and Tests/System has a system that keeps them.
-- - Std: what the code uses of the Rust library. Std/Exec has the outcomes (a value, a panic or
--   undefined behaviour, or fuel that ran out) and computations that pass a state on, Std/Keeps
--   what such a computation leaves true of the state; Std/HashMap, Std/Ffi, Std/Arc, Std/Sort,
--   Std/Text and Std/Output have maps, byte strings and C strings, shared pointers, `sort_by`,
--   numbers in decimal, and `println!`.
-- - Base: src/base.rs. Base/Types has `User`, `Group` and the extensions of `os::unix`, Base/Bsd
--   those of `os::bsd`, Base/Ext their traits, and chains of setters written against them; Base/Raw
--   the conversions `passwd_to_user` and `struct_to_group`; Base/Lookup the four lookups with their
--   loop; Base/Process the IDs and names of the process; Base/GroupLists `group_access_list`,
--   `get_user_groups` and `User::groups`; Base/AllUsers the iterator, one of them in
--   Base/AllUsers/Loop and several in Base/AllUsers/Shared; Base/Debug the implementations of
--   `Debug`. Base/Logging has all these functions once more with the lines that the feature
--   `logging` lets them log, and Base/Logging/Program the programs that call them. Base/Directory is
--   the interface to its clients: four functions that the lookups compute, which
--   Base/Directory/Build fills from a well-formed database. Base/MacOs is what the `cfg` branches
--   for macOS change.
-- - Cache: src/cache.rs. `UsersCache` has the methods under their names in the source. Cache/BiMap
--   is the pair of maps with its `RefCell` borrows; the methods for users and for groups have the
--   same text there, so each is written once. Cache/BiMap/Calls has runs of them, Cache/BiMap/Stable
--   and Cache/BiMap/Once what holds of a run while the system changes. Cache/Answers specifies what
--   calls on a cache return. Cache/Preload is `with_all_users`. Cache/Logged has the lookups with
--   the feature `logging`, whose lines show how often the system is asked, and Cache/Failures what
--   becomes of a call that fails. Cache/Sharing has the lookups with the addresses of the `Arc`s
--   that they return.
-- - Android: what the `cfg` branches of src/base.rs change on Android, and `with_all_users`
--   there.
-- - Switch: src/switch.rs. The destructor of `SwitchUserGuard` is `drop_guard`; `guarding` runs
--   it where `?` leaves `switch_user_group`. Switch/Nested has guards within guards,
--   Switch/GiveUp any sequence of calls.
-- - Mock: src/mock.rs. A `HashMap` has no fixed order, so the lookups by name take one. Mock/View
--   specifies the methods that do not depend on it, and Mock/Unordered forgets it by a quotient.
-- - Traits: src/traits.rs, with the implementations by the cache and by the mock.
-- - Examples: the programs of examples/, with what they print as a list of lines.
--   Examples/Switching is switching.rs, Examples/Listing list.rs, Examples/Groups groups.rs,
--   Examples/Profile example.rs and os.rs. Examples/Threading is threading.rs, as a step relation
--   on the threads, the mutex and the cache.
-- - Docs: the examples in the documentation of src/lib.rs (Docs/Crate), src/base.rs (Docs/Values,
--   Docs/Lookups, Docs/GroupLists, Docs/AllUsers), src/cache.rs (Docs/Caching), src/mock.rs
--   (Docs/Mocking) and src/switch.rs (Docs/Switching).
-- - UnitTests: the tests in src/base.rs and in src/mock.rs.
-- - Tests: a small system, and the theorems applied to it.
--
-- The cache and the process functions call the lookups of Base, the lookups call Libc. The state
-- of a function of Base or Switch is the world, that of a method of the cache is the cache and
-- the world, and an example puts what it has printed in front. Interior mutability is a new state
-- in the result. A panic leaves the state as it was when it struck, with the borrows given back.
--
-- Bounds and fuel: `usize` has 64 bits; Base/Lookup/Width has the loop of a lookup for fewer. The
-- loop of a lookup doubles a buffer of 2048 bytes, so it has left the range of `isize` after 52
-- rounds; it is given 64. The loop over all users takes its fuel as an argument, and the theorems
-- ask for more than there are users. IDs are natural numbers: only the casts on macOS compute
-- with them. Only `setreuid` and `setregid` give a meaning to `(uid_t) -1`, which is 2 ^ 32 - 1.
--
-- Not modelled: the `log` crate, `env_logger`, and the layout that `debug_struct` gives its
-- fields; that two names share memory; running out of memory, or of threads; what lib.rs passes
-- on. What is left of the sources is prose and `use` lines.
pub mod Prelude
pub mod Std
pub mod Libc
pub mod Base
pub mod Android
pub mod Cache
pub mod Switch
pub mod Mock
pub mod Traits
pub mod Examples
pub mod Docs
pub mod UnitTests
pub mod Tests
