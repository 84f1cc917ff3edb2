-- ===== src/Base/Process.antt =====
-- base.rs: the IDs of the running process, and the names that belong to them.
pub mod Names
use rust_users.Prelude.{ℕ, Option, none, some}
use rust_users.Std.Exec.{Exec, pure, gets, ◌>>=◌}
use rust_users.Std.Ffi.{OsString}
use rust_users.Libc.{Libc}
use rust_users.Base.Lookup.{get_user_by_uid, get_group_by_gid}

module _ (L : Libc) where
  unfoldable pub get_current_uid : Exec L.World ℕ
  get_current_uid = gets L.getuid

  unfoldable pub get_current_username : Exec L.World (Option OsString)
  unfolding get_current_uid
  get_current_username = do
    uid ← get_current_uid
    user ← get_user_by_uid L uid
    elim user [ none ↦ pure none | some u ↦ pure (some u.name_arc) ]

  unfoldable pub get_effective_uid : Exec L.World ℕ
  get_effective_uid = gets L.geteuid

  unfoldable pub get_effective_username : Exec L.World (Option OsString)
  unfolding get_effective_uid
  get_effective_username = do
    uid ← get_effective_uid
    user ← get_user_by_uid L uid
    elim user [ none ↦ pure none | some u ↦ pure (some u.name_arc) ]

  unfoldable pub get_current_gid : Exec L.World ℕ
  get_current_gid = gets L.getgid

  unfoldable pub get_current_groupname : Exec L.World (Option OsString)
  unfolding get_current_gid
  get_current_groupname = do
    gid ← get_current_gid
    group ← get_group_by_gid L gid
    elim group [ none ↦ pure none | some g ↦ pure (some g.name_arc) ]

  unfoldable pub get_effective_gid : Exec L.World ℕ
  get_effective_gid = gets L.getegid

  unfoldable pub get_effective_groupname : Exec L.World (Option OsString)
  unfolding get_effective_gid
  get_effective_groupname = do
    gid ← get_effective_gid
    group ← get_group_by_gid L gid
    elim group [ none ↦ pure none | some g ↦ pure (some g.name_arc) ]
