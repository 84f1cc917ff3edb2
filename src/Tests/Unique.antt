-- ===== src/Tests/Unique.antt =====
-- IDs are unique on the small system.
use rust_users.Prelude.{ℕ, ◌≡◌, ◌⊎◌, some, Option-cases, arith}
use rust_users.Std.Ffi.{OsString, has_nul}
use rust_users.Base.Types.{User, Group}
use rust_users.Cache.Answers.{IsUnique}
use rust_users.Tests.System.{Machine, toy, at_id, root_passwd, fred_passwd}
use rust_users.Tests.Readable.{root, fred, root_group, fred_group, toy_directory}

module _ (w : Machine) where
  uid_cases :
      (k : ℕ) (u : User)
      → (toy_directory w).user_by_uid k ≡ some u
      → ((k ≡ 0) × (u ≡ root)) ⊎ ((k ≡ 1337) × (u ≡ fred))
  uid_cases k u e = ground (arith, Option-cases (at_id root_passwd fred_passwd k))

  name_cases :
      (n : OsString) (u : User)
      → (toy_directory w).user_by_name n ≡ some u
      → (u ≡ root) ⊎ (u ≡ fred)
  name_cases n u e = ground arith

  gid_cases :
      (k : ℕ) (g : Group)
      → (toy_directory w).group_by_gid k ≡ some g
      → ((k ≡ 0) × (g ≡ root_group)) ⊎ ((k ≡ 1337) × (g ≡ fred_group))
  gid_cases k g e = ground arith

  groupname_cases :
      (n : OsString) (g : Group)
      → (toy_directory w).group_by_name n ≡ some g
      → (g ≡ root_group) ⊎ (g ≡ fred_group)
  groupname_cases n g e = ground arith

  root_named : (toy_directory w).user_by_name root.name_arc ≡ some root
  unfolding has_nul
  root_named = ground arith

  fred_named : (toy_directory w).user_by_name fred.name_arc ≡ some fred
  unfolding has_nul
  fred_named = ground arith

  root_group_named : (toy_directory w).group_by_name root_group.name_arc ≡ some root_group
  unfolding has_nul
  root_group_named = ground arith

  fred_group_named : (toy_directory w).group_by_name fred_group.name_arc ≡ some fred_group
  unfolding has_nul
  fred_group_named = ground arith

  pub toy_unique : IsUnique toy w (toy_directory w)
  toy_unique = record {
    user_own = λ k u e. ground (arith, uid_cases k u e);
    user_named = λ k u e. ground (arith, uid_cases k u e, root_named, fred_named);
    user_same = λ n u e. ground (arith, name_cases n u e);
    group_own = λ k g e. ground (arith, gid_cases k g e);
    group_named = λ k g e. ground (arith, gid_cases k g e, root_group_named, fred_group_named);
    group_same = λ n g e. ground (arith, groupname_cases n g e);
  }
