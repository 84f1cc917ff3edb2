-- ===== src/UnitTests/Database.antt =====
-- The tests of base.rs, which run on the database of the machine.
pub mod Pass
use rust_users.Prelude.{
  ℕ, ltb, Bool, true, false, Option, none, some, List, [], ◌∷◌, ◌++◌, codes, length, ◌==◌, nat_eq,
  bytes_eq,
}
use rust_users.Std.Exec.{Exec, pure, unwrap, assert, ◌>>=◌, ◌>>◌}
use rust_users.Std.Ffi.{OsString}
use rust_users.Libc.{Libc}
use rust_users.Base.Types.{
  User, Group, user_id, user_name_of, primary_group_id, group_name_of, home_dir, shell, password,
}
use rust_users.Base.Lookup.{get_user_by_uid, get_user_by_name, get_group_by_gid, get_group_by_name}
use rust_users.Base.Process.{get_current_uid, get_current_username}
use rust_users.Base.GroupLists.{user_groups}

abbrev is_some : {A : Type 0} → Option A → Bool
is_some none = false
is_some (some a) = true

abbrev is_none : {A : Type 0} → Option A → Bool
is_none none = true
is_none (some a) = false

module _ (L : Libc) where
  unfoldable pub uid : Exec L.World (Unit {0})
  unfolding get_current_uid
  uid = do _ ← get_current_uid L; pure tt

  unfoldable pub username : Exec L.World (Unit {0})
  unfolding get_current_uid get_current_username user_name_of
  username = do
    uid ← get_current_uid L
    name ← get_current_username L
    name ← unwrap name
    user ← get_user_by_uid L uid
    user ← unwrap user
    assert (name == user_name_of user)

  pub uid_for_username : Exec L.World (Unit {0})
  unfolding get_current_uid user_id
  uid_for_username = do
    uid ← get_current_uid L
    user ← get_user_by_uid L uid
    user ← unwrap user
    assert (user.uid == uid)

  pub username_for_uid_for_username : Exec L.World (Unit {0})
  unfolding get_current_uid
  username_for_uid_for_username = do
    uid ← get_current_uid L
    user ← get_user_by_uid L uid
    user ← unwrap user
    user2 ← get_user_by_uid L user.uid
    user2 ← unwrap user2
    assert (user2.uid == uid)

  -- It asserts nothing; what it prints is its result. The output of the other tests is left out.
  pub user_info : Exec L.World (OsString × OsString × OsString)
  unfolding get_current_uid home_dir shell password
  user_info = do
    uid ← get_current_uid L
    user ← get_user_by_uid L uid
    user ← unwrap user
    pure (home_dir user, shell user, password user)

  pub user_by_name : Exec L.World (Unit {0})
  unfolding get_current_username user_name_of
  user_by_name = do
    name ← get_current_username L
    name ← unwrap name
    found ← get_user_by_name L name
    assert (is_some found)
    user ← unwrap found
    assert (user_name_of user == name)
    nobody ← get_user_by_name L (codes "user" ++ 0 ∷ [])
    assert (is_none nobody)

  pub user_get_groups : Exec L.World (Unit {0})
  unfolding get_current_uid
  user_get_groups = do
    uid ← get_current_uid L
    user ← get_user_by_uid L uid
    user ← unwrap user
    groups ← user_groups L user
    groups ← unwrap groups
    assert (ltb 0 (length groups))

  pub group_by_name : Exec L.World (Unit {0})
  unfolding get_current_uid group_name_of
  group_by_name = do
    cur_uid ← get_current_uid L
    cur_user ← get_user_by_uid L cur_uid
    cur_user ← unwrap cur_user
    cur_group ← get_group_by_gid L cur_user.primary_group
    cur_group ← unwrap cur_group
    found ← get_group_by_name L (group_name_of cur_group)
    assert (is_some found)
    group ← unwrap found
    assert (group_name_of group == group_name_of cur_group)
    nobody ← get_group_by_name L (codes "users" ++ 0 ∷ [])
    assert (is_none nobody)
