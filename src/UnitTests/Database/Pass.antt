-- ===== src/UnitTests/Database/Pass.antt =====
-- The tests of base.rs on a machine whose database is consistent.
use rust_users.Prelude.{nat_eq, bytes_eq}
use rust_users.Libc.{Libc}
use rust_users.Base.Directory.{Directory}
