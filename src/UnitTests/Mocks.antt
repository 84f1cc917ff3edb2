-- ===== src/UnitTests/Mocks.antt =====
-- The tests of mock.rs. `values` is the order in which the map of a mock iterates.
pub mod Pass
use mathlib.Core.Option
use rust_users.Prelude.{ℕ, Bool, Option, none, some, List, codes, ◌==◌, nat_eq, bytes_eq, option_eq}
use rust_users.Std.Ffi.{OsString}
use rust_users.Std.HashMap.{HashMap}
use rust_users.Base.Types.{User, Group, new_user, new_group, user_id, group_id}
use rust_users.Mock.{
  MockUsers, with_current_uid, add_user, add_group, get_user_by_uid, get_user_by_name,
  get_current_username, get_group_by_gid, get_group_by_name,
}

-- The mocks that the tests make.
abbrev with_user : ℕ → User → MockUsers
with_user current_uid user = (add_user user (with_current_uid current_uid)).1

abbrev with_group : ℕ → Group → MockUsers
with_group current_uid group = (add_group group (with_current_uid current_uid)).1

abbrev name_of_user : Option User → Option OsString
name_of_user = Option.map λ u. u.name_arc

abbrev name_of_group : Option Group → Option OsString
name_of_group = Option.map λ g. g.name_arc

pub current_username : Bool
current_username =
    some (codes "fred") == get_current_username (with_user 1337 (new_user 1337 (codes "fred") 101))

pub no_current_username : Bool
no_current_username = none == get_current_username (with_current_uid 1337)

unfoldable pub uid : Bool
uid =
    some (codes "fred")
    == name_of_user (get_user_by_uid 1337 (with_user 0 (new_user 1337 (codes "fred") 101)))

unfoldable pub username : (HashMap ℕ User → List User) → Bool
username values =
    some 1440
    == Option.map user_id
        (get_user_by_name values (codes "fred") (with_user 1337 (new_user 1440 (codes "fred") 101)))

pub no_username : (HashMap ℕ User → List User) → Bool
no_username values =
    none
    == Option.map user_id (
        get_user_by_name values (codes "criminy")
          (with_user 1337 (new_user 1337 (codes "fred") 101)))

pub no_uid : Bool
no_uid = none == name_of_user (get_user_by_uid 1337 (with_current_uid 0))

unfoldable pub gid : Bool
gid =
    some (codes "fred")
    == name_of_group (get_group_by_gid 1337 (with_group 0 (new_group 1337 (codes "fred"))))

pub group_name : (HashMap ℕ Group → List Group) → Bool
group_name values =
    some 1337
    == Option.map group_id
        (get_group_by_name values (codes "fred") (with_group 0 (new_group 1337 (codes "fred"))))

pub no_group_name : (HashMap ℕ Group → List Group) → Bool
no_group_name values =
    none
    == Option.map group_id
        (get_group_by_name values (codes "santa") (with_group 0 (new_group 1337 (codes "fred"))))

pub no_gid : Bool
no_gid = none == name_of_group (get_group_by_gid 1337 (with_current_uid 0))
