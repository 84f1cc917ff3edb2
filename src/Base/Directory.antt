-- ===== src/Base/Directory.antt =====
-- base.rs as its callers see it: with a database that holds still and is well formed, the lookups
-- are four functions from keys to users and groups.
pub mod Build
use rust_users.Prelude.{ℕ, ◌≡◌, Option}
use rust_users.Std.Exec.{ret}
use rust_users.Std.Ffi.{OsString}
use rust_users.Libc.{Libc}
use rust_users.Base.Types.{User, Group}
use rust_users.Base.Lookup.{get_user_by_uid, get_user_by_name, get_group_by_gid, get_group_by_name}

pub record Directory (L : Libc) (w : L.World) : Type 0 where
  pub user_by_uid : ℕ → Option User
  pub user_by_name : OsString → Option User
  pub group_by_gid : ℕ → Option Group
  pub group_by_name : OsString → Option Group
  pub reads_uid : (uid : ℕ) → get_user_by_uid L uid w ≡ (ret (user_by_uid uid), w)
  pub reads_name : (name : OsString) → get_user_by_name L name w ≡ (ret (user_by_name name), w)
  pub reads_gid : (gid : ℕ) → get_group_by_gid L gid w ≡ (ret (group_by_gid gid), w)
  pub reads_groupname :
      (name : OsString) → get_group_by_name L name w ≡ (ret (group_by_name name), w)
