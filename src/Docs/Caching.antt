-- ===== src/Docs/Caching.antt =====
-- cache.rs: the examples of the module.
use rust_users.Prelude.{ℕ, ◌≡◌, Option, none, some, arith, nat_eq, bytes_eq}
use rust_users.Std.Exec.{Exec, ret, stop, expected, assert, expect, unwrap, ◌>>=◌}
use rust_users.Std.HashMap.{get, insert}
use rust_users.Std.Arc.{ptr_eq}
use rust_users.Libc.{Libc}
use rust_users.Base.Types.{User, Group, primary_group_id}
use rust_users.Base.Directory.{Directory}
use rust_users.Cache
use rust_users.Cache.{UsersCache, new}
use rust_users.Cache.Answers.{IsUnique}
use rust_users.Cache.Answers.Methods.{
  get_current_uid-Gives, get_user_by_uid-Gives, get_group_by_gid-Gives, Gives-bind,
}
use rust_users.Cache.Answers.Refines.{new-IsTrue}
use rust_users.Cache.BiMap.{by_key, empty}
use rust_users.Cache.Sharing
use rust_users.Cache.Sharing.{Shared, by_key_shared}

-- `UsersCache::new`
abbrev new_cache : UsersCache
new_cache = new

module _ (L : Libc) where
  -- `UsersCache::with_all_users`, for a system with fewer users than the fuel.
  abbrev full_cache : ℕ → Exec L.World UsersCache
  full_cache fuel = Cache.with_all_users L fuel

  -- The assertion on two lookups of one user.
  same_user : Exec (Shared ℕ User L.World) (Unit {0})
  unfolding ptr_eq
  same_user = do
    user ← Sharing.get_user_by_uid L 502
    user ← expect "User not found" user
    same_user ← Sharing.get_user_by_uid L 502
    same_user ← unwrap same_user
    assert (ptr_eq user same_user)

  -- The user and its group, one after the other from one cache.
  user_and_group : Exec (UsersCache × L.World) (Option Group)
  user_and_group = do
    uid ← Cache.get_current_uid L
    user ← Cache.get_user_by_uid L uid
    user ← unwrap user
    Cache.get_group_by_gid L (primary_group_id user)

module _ (L : Libc) (w : L.World) (D : Directory L w) where
  -- On a new cache, over a directory that has a user 502, both lookups return it, the assertion
  -- that they are one `Arc` holds, and the world stays as it is. Without such a user the example
  -- panics with its message.
  same_user_asserts :
      (next : ℕ)
      → let (r, (_, (_, w'))) = same_user L (empty, (next, w)) in
        (r ≡ (elim (D.user_by_uid 502) [
          | some u ↦ ret tt
          | none ↦ stop (expected "User not found")
        ]))
        × (w' ≡ w)
  unfolding same_user Sharing.get_user_by_uid by_key_shared by_key get insert ptr_eq
  same_user_asserts next = ground (arith, D.reads_uid 502)

module _ (L : Libc) (w : L.World) (D : Directory L w) (Q : IsUnique L w D) where
  -- The second example compiles and works, since a lookup takes the cache by a shared reference:
  -- with a user for the real ID it returns the group under that user's primary group ID.
  user_and_group_lem :
      (u : User)
      → D.user_by_uid (L.getuid w) ≡ some u
      → let (r, (_, w')) = user_and_group L (new, w) in
        (r ≡ ret (D.group_by_gid u.primary_group)) × (w' ≡ w)
  unfolding user_and_group primary_group_id
  user_and_group_lem u e =
      let rest : User → Exec (UsersCache × L.World) (Option Group) =
        λ v. Cache.get_group_by_gid L v.primary_group in
      let group = D.group_by_gid u.primary_group in
      let (r, same, _) =
        Gives-bind L w D Q (Cache.get_current_uid L)
          (λ uid. Cache.get_user_by_uid L uid >>= λ v. (unwrap v >>= rest)) (L.getuid w) group
          (get_current_uid-Gives L w D Q)
          (Gives-bind L w D Q (Cache.get_user_by_uid L (L.getuid w)) (λ v. unwrap v >>= rest)
            (some u) group (rw e at (get_user_by_uid-Gives L w D Q (L.getuid w)))
            (get_group_by_gid-Gives L w D Q u.primary_group))
          new (new-IsTrue L w D Q) in
      (r, same)
