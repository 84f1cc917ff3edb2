-- ===== src/UnitTests/Mocks/Pass.antt =====
-- The tests of mock.rs, whatever the order of the maps.
use rust_users.Prelude.{ℕ, ◌≡◌, true, List, codes, arith, ◌==◌, nat_eq, bytes_eq, option_eq}
use rust_users.Std.HashMap.{HashMap, get, insert}
use rust_users.Base.Types.{User, Group, new_user, new_group, user_id, group_id}
use rust_users.Mock.{
  with_current_uid, add_user, add_group, get_user_by_uid, get_user_by_name, get_current_username,
  get_group_by_gid, get_group_by_name,
}
use rust_users.Mock.Table.{IsOrder, find_one}
use rust_users.UnitTests.Mocks.{
  current_username, no_current_username, uid, username, no_username, no_uid, gid, group_name,
  no_group_name, no_gid,
}

-- Whatever the order in which the maps iterate, each test of mock.rs passes.
mock_tests_pass :
    (users : HashMap ℕ User → List User) (groups : HashMap ℕ Group → List Group)
    → IsOrder users
    → IsOrder groups
    → (current_username ≡ true)
      × (no_current_username ≡ true)
      × (uid ≡ true)
      × (username users ≡ true)
      × (no_username users ≡ true)
      × (no_uid ≡ true)
      × (gid ≡ true)
      × (group_name groups ≡ true)
      × (no_group_name groups ≡ true)
      × (no_gid ≡ true)
unfolding current_username no_current_username uid username no_username no_uid gid group_name
    no_group_name no_gid new_user new_group user_id group_id get insert with_current_uid add_user
    add_group get_current_username get_user_by_uid get_group_by_gid get_user_by_name
    get_group_by_name
mock_tests_pass users groups order order' = (
  ground arith,
  ground arith,
  ground arith,
  ground (
    arith,
    find_one users (λ (x : User). x.name_arc == (codes "fred")) 1440
        (new_user 1440 (codes "fred") 101) order,
  ),
  ground (
    arith,
    find_one users (λ (x : User). x.name_arc == (codes "criminy")) 1337
        (new_user 1337 (codes "fred") 101) order,
  ),
  ground arith,
  ground arith,
  ground (
    arith,
    find_one groups (λ (x : Group). x.name_arc == (codes "fred")) 1337
        (new_group 1337 (codes "fred")) order',
  ),
  ground (
    arith,
    find_one groups (λ (x : Group). x.name_arc == (codes "santa")) 1337
        (new_group 1337 (codes "fred")) order',
  ),
  ground arith,
)
