-- ===== src/Docs/Values.antt =====
-- base.rs: the examples of the constructors and accessors, which assert what they return.
use rust_users.Prelude.{◌≡◌, codes, arith, ◌==◌, nat_eq, bytes_eq}
use rust_users.Std.Exec.{Exec, ret, assert}
use rust_users.Base.Types.{
  User, Group, new_user, new_group, user_id, user_name_of, primary_group_id, group_id,
  group_name_of,
}

abbrev stevedore : User
unfolding new_user
stevedore = new_user 501 (codes "stevedore") 100

abbrev database : Group
unfolding new_group
database = new_group 102 (codes "database")

module _ {S : Type 0} where
  uid_example : Exec S (Unit {0})
  unfolding stevedore
  uid_example = assert (user_id stevedore == 501)

  name_example : Exec S (Unit {0})
  unfolding stevedore
  name_example = assert (user_name_of stevedore == codes "stevedore")

  primary_group_example : Exec S (Unit {0})
  unfolding stevedore
  primary_group_example = assert (primary_group_id stevedore == 100)

  gid_example : Exec S (Unit {0})
  unfolding database
  gid_example = assert (group_id database == 102)

  group_name_example : Exec S (Unit {0})
  unfolding database
  group_name_example = assert (group_name_of database == codes "database")

  -- No assertion of the examples fails, and none changes the state.
  examples_pass :
      (s : S)
      → (uid_example s ≡ (ret tt, s))
        × (name_example s ≡ (ret tt, s))
        × (primary_group_example s ≡ (ret tt, s))
        × (gid_example s ≡ (ret tt, s))
        × (group_name_example s ≡ (ret tt, s))
  unfolding uid_example name_example primary_group_example gid_example group_name_example user_id
      user_name_of primary_group_id group_id group_name_of new_user new_group stevedore database
  examples_pass s = (ground arith, ground arith, ground arith, ground arith, ground arith)
