-- ===== src/Android.antt =====
-- base.rs and cache.rs on Android, where the C library does not list its users, and where only a
-- part of the struct of a user is read. The other functions are the same as on Linux.
pub mod Linux
use rust_users.Prelude.{ℕ, zero, suc, Option, none, some, List}
use rust_users.Std.Exec.{Exec, Outcome, ret, diverges, bind, pure, os, finally, ◌>>=◌, ◌>>◌}
use rust_users.Std.Ffi.{OsString, cstring_new}
use rust_users.Libc.{Libc, Passwd}
use rust_users.Base.Types.{User, UserExtras, default_user_extras}
use rust_users.Base.Raw.{from_raw_buf}
use rust_users.Base.Lookup.{fetch}
use rust_users.Cache.{UsersCache, new, cache_user}

-- `UserExtras::from_passwd`
unfoldable pub from_passwd : Passwd → Outcome UserExtras
from_passwd passwd = ret default_user_extras

unfoldable pub passwd_to_user : Passwd → Outcome User
unfolding from_passwd
passwd_to_user passwd = bind (from_raw_buf passwd.pw_name) λ name.
    bind (from_passwd passwd) λ extras. ret (record {
      uid = passwd.pw_uid;
      primary_group = passwd.pw_gid;
      extras = extras;
      name_arc = name;
    })

module _ (L : Libc) where
  unfoldable pub get_user_by_uid : ℕ → Exec L.World (Option User)
  get_user_by_uid uid = fetch (L.getpwuid_r uid) passwd_to_user

  unfoldable pub get_user_by_name : OsString → Exec L.World (Option User)
  get_user_by_name username = elim (cstring_new username) [
    | none ↦ pure none
    | some cstring ↦ fetch (L.getpwnam_r cstring) passwd_to_user
  ]

  -- `all_users`, without `setpwent`
  unfoldable pub all_users : Exec L.World (Unit {0})
  all_users = pure tt

  -- `AllUsers::next`
  unfoldable pub next : Exec L.World (Option User)
  next = pure none

  -- `<AllUsers as Drop>::drop`
  unfoldable pub drop_users : L.World → L.World
  drop_users w = w

  module _ {T : Type 0} (body : User → Exec (T × L.World) (Unit {0})) where
    unfoldable pub iterate : ℕ → Exec (T × L.World) (Unit {0})
    iterate zero = λ s. (diverges, s)
    iterate (suc fuel) = do
      item ← os next
      elim item [ none ↦ pure tt | some user ↦ do body user; iterate fuel ]

    -- `for user in all_users() { … }`
    unfoldable pub for_users : ℕ → Exec (T × L.World) (Unit {0})
    for_users fuel = do os all_users; finally (iterate fuel) (λ (t, w). (t, drop_users w))

  -- `UsersCache::with_all_users`
  unfoldable pub with_all_users : ℕ → Exec L.World UsersCache
  with_all_users fuel w =
      let (r, (c, w')) = for_users (cache_user L) fuel (new, w) in (bind r λ _. ret c, w')
