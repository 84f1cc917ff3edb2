-- ===== src/Cache.antt =====
-- cache.rs: `UsersCache`, its constructors, and its methods of the traits `Users` and `Groups`. A
-- method takes the cache and the world, since it writes through `Cell` and `RefCell`.
pub mod Cells
pub mod Answers
pub mod Preload
pub mod BiMap
pub mod Sharing
pub mod Logged
pub mod Failures
use rust_users.Prelude.{ℕ, Option, none, some, nat_eq, bytes_eq}
use mathlib.Core.Option
use rust_users.Std.Exec.{Exec, ret, bind, pure, modify, os, ◌>>=◌, ◌>>◌}
use rust_users.Std.Ffi.{OsString}
use rust_users.Libc.{Libc}
use rust_users.Base.Types.{User, Group}
use rust_users.Base.Lookup
use rust_users.Base.Process
use rust_users.Base.AllUsers
use rust_users.Cache.BiMap.{
  empty, borrow_forward, borrow_backward, insert_forward, insert_backward, by_key, by_name,
}

pub record UsersCache : Type 0 where
  pub users : BiMap.BiMap ℕ User
  pub groups : BiMap.BiMap ℕ Group
  pub uid : Option ℕ
  pub gid : Option ℕ
  pub euid : Option ℕ
  pub egid : Option ℕ

-- `UsersCache::default`, `UsersCache::new`
abbrev pub new : UsersCache
new = record { users = empty; groups = empty; uid = none; gid = none; euid = none; egid = none }

module _ {W A : Type 0} where
  -- `self.users` and `self.groups`
  abbrev on_users : Exec (BiMap.BiMap ℕ User × W) A → Exec (UsersCache × W) A
  on_users m (c, w) = let (r, (users, w')) = m (c.users, w) in (r, (record c { users = users }, w'))

  abbrev on_groups : Exec (BiMap.BiMap ℕ Group × W) A → Exec (UsersCache × W) A
  on_groups m (c, w) =
      let (r, (groups, w')) = m (c.groups, w) in (r, (record c { groups = groups }, w'))

module _ {W : Type 0} where
  -- `cell.get().unwrap_or_else(…)`
  abbrev cell_or_else :
      (UsersCache → Option ℕ) → (ℕ → UsersCache → UsersCache) → Exec W ℕ → Exec (UsersCache × W) ℕ
  cell_or_else cell set ask (c, w) = elim (cell c) [
    | some id ↦ (pure id) (c, w)
    | none ↦ (do id ← os ask; modify (λ (c', w'). (set id c', w')); pure id) (c, w)
  ]

module _ (L : Libc) where
  unfoldable pub get_user_by_uid : ℕ → Exec (UsersCache × L.World) (Option User)
  get_user_by_uid uid = on_users (by_key (λ (u : User). u.name_arc) (Lookup.get_user_by_uid L) uid)

  unfoldable pub get_user_by_name : OsString → Exec (UsersCache × L.World) (Option User)
  get_user_by_name username =
      on_users (by_name (λ (u : User). u.uid) (Lookup.get_user_by_name L) username)

  unfoldable pub get_current_uid : Exec (UsersCache × L.World) ℕ
  unfolding Process.get_current_uid
  get_current_uid =
      cell_or_else (λ c. c.uid) (λ id c. record c { uid = some id }) (Process.get_current_uid L)

  unfoldable pub get_current_username : Exec (UsersCache × L.World) (Option OsString)
  get_current_username = do
    uid ← get_current_uid
    user ← get_user_by_uid uid
    pure (Option.map (λ (u : User). u.name_arc) user)

  unfoldable pub get_effective_uid : Exec (UsersCache × L.World) ℕ
  unfolding Process.get_effective_uid
  get_effective_uid =
      cell_or_else (λ c. c.euid) (λ id c. record c { euid = some id }) (Process.get_effective_uid L)

  unfoldable pub get_effective_username : Exec (UsersCache × L.World) (Option OsString)
  get_effective_username = do
    uid ← get_effective_uid
    user ← get_user_by_uid uid
    pure (Option.map (λ (u : User). u.name_arc) user)

  unfoldable pub get_group_by_gid : ℕ → Exec (UsersCache × L.World) (Option Group)
  get_group_by_gid gid =
      on_groups (by_key (λ (g : Group). g.name_arc) (Lookup.get_group_by_gid L) gid)

  unfoldable pub get_group_by_name : OsString → Exec (UsersCache × L.World) (Option Group)
  get_group_by_name group_name =
      on_groups (by_name (λ (g : Group). g.gid) (Lookup.get_group_by_name L) group_name)

  unfoldable pub get_current_gid : Exec (UsersCache × L.World) ℕ
  unfolding Process.get_current_gid
  get_current_gid =
      cell_or_else (λ c. c.gid) (λ id c. record c { gid = some id }) (Process.get_current_gid L)

  unfoldable pub get_current_groupname : Exec (UsersCache × L.World) (Option OsString)
  get_current_groupname = do
    gid ← get_current_gid
    group ← get_group_by_gid gid
    pure (Option.map (λ (g : Group). g.name_arc) group)

  unfoldable pub get_effective_gid : Exec (UsersCache × L.World) ℕ
  unfolding Process.get_effective_gid
  get_effective_gid =
      cell_or_else (λ c. c.egid) (λ id c. record c { egid = some id }) (Process.get_effective_gid L)

  unfoldable pub get_effective_groupname : Exec (UsersCache × L.World) (Option OsString)
  get_effective_groupname = do
    gid ← get_effective_gid
    group ← get_group_by_gid gid
    pure (Option.map (λ (g : Group). g.name_arc) group)

  -- One round of the loop of `with_all_users`.
  abbrev pub cache_user : User → Exec (UsersCache × L.World) (Unit {0})
  cache_user user = do
    on_users (borrow_forward (insert_forward user.uid (some user)))
    on_users (borrow_backward (insert_backward user.name_arc (some user.uid)))

  -- `UsersCache::with_all_users`, for a system with fewer users than the fuel.
  pub with_all_users : ℕ → Exec L.World UsersCache
  with_all_users fuel w =
      let (r, (c, w')) = AllUsers.for_users L cache_user fuel (new, w) in (bind r λ _. ret c, w')
