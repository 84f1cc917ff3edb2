-- ===== src/Traits/Instances.antt =====
-- The implementations of the traits by `UsersCache` and by `MockUsers`.
use rust_users.Prelude.{ℕ, refl, List, arith, nat_eq}
use rust_users.Std.Exec.{gets}
use rust_users.Std.Ffi.{OsString}
use rust_users.Std.HashMap.{HashMap}
use rust_users.Libc.{Libc}
use rust_users.Base.Types.{User, Group}
use rust_users.Base.Lookup
use rust_users.Cache
use rust_users.Cache.{UsersCache}
use rust_users.Cache.BiMap.Closed.{IsClosed}
use rust_users.Cache.BiMap.Repeat.{by_key_again, by_name_again}
use rust_users.Cache.Cells.{
  get_current_uid_lem, get_effective_uid_lem, get_current_gid_lem, get_effective_gid_lem,
}
use rust_users.Mock
use rust_users.Mock.{MockUsers}
use rust_users.Traits.{Users, Groups, Repeats, IsLawfulUsers, IsLawfulGroups}

-- `impl Users for UsersCache`, `impl Groups for UsersCache`
abbrev pub cache_users : (L : Libc) → Users (UsersCache × L.World)
cache_users L = record {
  get_user_by_uid = Cache.get_user_by_uid L;
  get_user_by_name = Cache.get_user_by_name L;
  get_current_uid = Cache.get_current_uid L;
  get_current_username = Cache.get_current_username L;
  get_effective_uid = Cache.get_effective_uid L;
  get_effective_username = Cache.get_effective_username L;
}

abbrev cache_groups : (L : Libc) → Groups (UsersCache × L.World)
cache_groups L = record {
  get_group_by_gid = Cache.get_group_by_gid L;
  get_group_by_name = Cache.get_group_by_name L;
  get_current_gid = Cache.get_current_gid L;
  get_current_groupname = Cache.get_current_groupname L;
  get_effective_gid = Cache.get_effective_gid L;
  get_effective_groupname = Cache.get_effective_groupname L;
}

-- `impl Users for MockUsers`, `impl Groups for MockUsers`
abbrev pub mock_users : (HashMap ℕ User → List User) → Users MockUsers
mock_users values = record {
  get_user_by_uid = λ uid. gets (Mock.get_user_by_uid uid);
  get_user_by_name = λ name. gets (Mock.get_user_by_name values name);
  get_current_uid = gets Mock.get_current_uid;
  get_current_username = gets Mock.get_current_username;
  get_effective_uid = gets Mock.get_effective_uid;
  get_effective_username = gets Mock.get_effective_username;
}

abbrev mock_groups : (HashMap ℕ Group → List Group) → Groups MockUsers
mock_groups values = record {
  get_group_by_gid = λ gid. gets (Mock.get_group_by_gid gid);
  get_group_by_name = λ name. gets (Mock.get_group_by_name values name);
  get_current_gid = gets Mock.get_current_gid;
  get_current_groupname = gets Mock.get_current_groupname;
  get_effective_gid = gets Mock.get_effective_gid;
  get_effective_groupname = gets Mock.get_effective_groupname;
}

-- The maps of the cache are closed.
abbrev IsReady : {W : Type 0} → UsersCache × W → Type 0
IsReady (c, w) = IsClosed c.users × IsClosed c.groups

module _ (L : Libc) where
  user_by_uid-Repeats : (uid : ℕ) → Repeats IsReady (Cache.get_user_by_uid L uid)
  unfolding Cache.get_user_by_uid
  user_by_uid-Repeats uid (c, w) a (users, groups) p =
      let again =
        by_key_again c.users w users (λ (u : User). u.name_arc) (Lookup.get_user_by_uid L) uid p in
      ground (arith, again)

  user_by_name-Repeats : (name : OsString) → Repeats IsReady (Cache.get_user_by_name L name)
  unfolding Cache.get_user_by_name
  user_by_name-Repeats name (c, w) a (users, groups) p =
      let again =
        by_name_again c.users w users (λ (u : User). u.uid) (Lookup.get_user_by_name L) name p in
      ground (arith, again)

  group_by_gid-Repeats : (gid : ℕ) → Repeats IsReady (Cache.get_group_by_gid L gid)
  unfolding Cache.get_group_by_gid
  group_by_gid-Repeats gid (c, w) a (users, groups) p =
      let again =
        by_key_again c.groups w groups (λ (g : Group). g.name_arc) (Lookup.get_group_by_gid L) gid
          p in
      ground (arith, again)

  group_by_name-Repeats : (name : OsString) → Repeats IsReady (Cache.get_group_by_name L name)
  unfolding Cache.get_group_by_name
  group_by_name-Repeats name (c, w) a (users, groups) p =
      let again =
        by_name_again c.groups w groups (λ (g : Group). g.gid) (Lookup.get_group_by_name L) name
          p in
      ground (arith, again)

  current_uid-Repeats : Repeats IsReady (Cache.get_current_uid L)
  current_uid-Repeats s a h p = ground (
    arith,
    get_current_uid_lem L s.0 s.1,
    get_current_uid_lem L (Cache.get_current_uid L s).1.0 s.1,
  )

  effective_uid-Repeats : Repeats IsReady (Cache.get_effective_uid L)
  effective_uid-Repeats s a h p = ground (
    arith,
    get_effective_uid_lem L s.0 s.1,
    get_effective_uid_lem L (Cache.get_effective_uid L s).1.0 s.1,
  )

  current_gid-Repeats : Repeats IsReady (Cache.get_current_gid L)
  current_gid-Repeats s a h p = ground (
    arith,
    get_current_gid_lem L s.0 s.1,
    get_current_gid_lem L (Cache.get_current_gid L s).1.0 s.1,
  )

  effective_gid-Repeats : Repeats IsReady (Cache.get_effective_gid L)
  effective_gid-Repeats s a h p = ground (
    arith,
    get_effective_gid_lem L s.0 s.1,
    get_effective_gid_lem L (Cache.get_effective_gid L s).1.0 s.1,
  )

  -- `UsersCache` satisfies the laws of `Users` and `Groups`: the names are those of the IDs, and on
  -- a cache whose two maps satisfy their invariant, a call that is repeated returns the same and
  -- changes nothing.
  cache-IsLawful : IsLawfulUsers IsReady (cache_users L) × IsLawfulGroups IsReady (cache_groups L)
  unfolding Cache.get_current_username Cache.get_effective_username Cache.get_current_groupname
      Cache.get_effective_groupname
  cache-IsLawful = (
    record {
      current_name = λ s. refl;
      effective_name = λ s. refl;
      by_uid = user_by_uid-Repeats;
      by_name = user_by_name-Repeats;
      current = current_uid-Repeats;
      effective = effective_uid-Repeats;
    },
    record {
      current_name = λ s. refl;
      effective_name = λ s. refl;
      by_gid = group_by_gid-Repeats;
      by_name = group_by_name-Repeats;
      current = current_gid-Repeats;
      effective = effective_gid-Repeats;
    },
  )

-- In whatever order its maps iterate, `MockUsers` satisfies the laws of `Users` and `Groups`: the
-- names are those of the IDs, and a call that is repeated returns the same and changes nothing.
mock-IsLawful :
    (users : HashMap ℕ User → List User) (groups : HashMap ℕ Group → List Group)
    → IsLawfulUsers (λ m. Unit) (mock_users users) × IsLawfulGroups (λ m. Unit) (mock_groups groups)
unfolding Mock.get_current_uid Mock.get_current_username Mock.get_effective_uid
    Mock.get_effective_username Mock.get_user_by_uid Mock.get_current_gid Mock.get_current_groupname
    Mock.get_effective_gid Mock.get_effective_groupname Mock.get_group_by_gid
mock-IsLawful users groups = (
  record {
    current_name = λ s. refl;
    effective_name = λ s. refl;
    by_uid = λ uid s a h p. ground arith;
    by_name = λ name s a h p. ground arith;
    current = λ s a h p. ground arith;
    effective = λ s a h p. ground arith;
  },
  record {
    current_name = λ s. refl;
    effective_name = λ s. refl;
    by_gid = λ gid s a h p. ground arith;
    by_name = λ name s a h p. ground arith;
    current = λ s a h p. ground arith;
    effective = λ s a h p. ground arith;
  },
)
