-- ===== src/Mock.antt =====
-- mock.rs: `MockUsers`. The order in which a `HashMap` iterates is not fixed, so the methods that
-- walk over the values take it as a parameter.
pub mod Table
pub mod View
pub mod Unordered
pub mod Results
use mathlib.Core.Option
use rust_users.Prelude.{
  ℕ, Bool, true, false, Option, none, some, List, [], ◌∷◌, ◌==◌, nat_eq, bytes_eq, if◌then◌else◌,
}
use rust_users.Std.Ffi.{OsString}
use rust_users.Std.HashMap.{HashMap, get, insert}
use rust_users.Base.Types.{User, Group}

pub record MockUsers : Type 0 where
  pub users : HashMap ℕ User
  pub groups : HashMap ℕ Group
  pub uid : ℕ

unfoldable pub with_current_uid : ℕ → MockUsers
with_current_uid current_uid = record { users = []; groups = []; uid = current_uid }

-- The value that stood under the ID before comes back.
unfoldable pub add_user : User → MockUsers → Option User × MockUsers
add_user user m = (get user.uid m.users, record m { users = insert user.uid user m.users })

unfoldable pub add_group : Group → MockUsers → Option Group × MockUsers
add_group group m = (get group.gid m.groups, record m { groups = insert group.gid group m.groups })

-- `Iterator::find`
unfoldable pub find : {A : Type 0} → (A → Bool) → List A → Option A
find p [] = none
find p (x ∷ xs) = if p x then some x else find p xs

-- `impl Users for MockUsers`
unfoldable pub get_user_by_uid : ℕ → MockUsers → Option User
get_user_by_uid uid m = get uid m.users

unfoldable pub get_user_by_name : (HashMap ℕ User → List User) → OsString → MockUsers → Option User
unfolding find
get_user_by_name values username m = find (λ u. u.name_arc == username) (values m.users)

unfoldable pub get_current_uid : MockUsers → ℕ
get_current_uid m = m.uid

unfoldable pub get_current_username : MockUsers → Option OsString
get_current_username m = Option.map (λ (u : User). u.name_arc) (get m.uid m.users)

unfoldable pub get_effective_uid : MockUsers → ℕ
get_effective_uid m = m.uid

unfoldable pub get_effective_username : MockUsers → Option OsString
get_effective_username m = Option.map (λ (u : User). u.name_arc) (get m.uid m.users)

-- `impl Groups for MockUsers`
unfoldable pub get_group_by_gid : ℕ → MockUsers → Option Group
get_group_by_gid gid m = get gid m.groups

unfoldable pub get_group_by_name :
    (HashMap ℕ Group → List Group) → OsString → MockUsers → Option Group
unfolding find
get_group_by_name values group_name m = find (λ g. g.name_arc == group_name) (values m.groups)

-- The mock has no group ID of its own: it returns the user ID.
unfoldable pub get_current_gid : MockUsers → ℕ
get_current_gid m = m.uid

unfoldable pub get_current_groupname : MockUsers → Option OsString
get_current_groupname m = Option.map (λ (g : Group). g.name_arc) (get m.uid m.groups)

unfoldable pub get_effective_gid : MockUsers → ℕ
get_effective_gid m = m.uid

unfoldable pub get_effective_groupname : MockUsers → Option OsString
get_effective_groupname m = Option.map (λ (g : Group). g.name_arc) (get m.uid m.groups)
