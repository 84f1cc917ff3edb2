-- ===== src/Tests/Programs.antt =====
-- The other examples, and the tests of the sources, on the small system.
use mathlib.Core.List.{Perm}
use rust_users.Prelude.{ℕ, ◌≡◌, ◌≢◌, ◌↔◌, refl, none, some, List, [], ◌∷◌, ◌++◌, map, arith, nat_eq}
use rust_users.Std.Exec.{ret}
use rust_users.Std.Ffi.{has_nul}
use rust_users.Std.Sort.{IsAscending}
use rust_users.Base.Types.{User, Group, user_id, group_id}
use rust_users.Base.GroupLists.Dedup.{HasKey}
use rust_users.Base.GroupLists.Results.{InBuffer}
use rust_users.Cache.{new}
use rust_users.Examples.Output.{group_access_list_title}
use rust_users.Examples.Listing
use rust_users.Examples.Listing.{list_prints}
use rust_users.Examples.Groups
use rust_users.Examples.Groups.{groups_prints}
use rust_users.Examples.Profile.{example_main, os_main, example_report, os_report, profiles_print}
use rust_users.Tests.System.{toy, toy_groups, toy_enumeration, as_root, as_fred}
use rust_users.Tests.Readable.{
  root, fred, toy_directory, root_passwd-IsPasswdOf, fred_passwd-IsPasswdOf,
}
use rust_users.Tests.Unique.{toy_unique}

list_prints_example :
    (sorted : List User) × Perm sorted (root ∷ fred ∷ [])
    × IsAscending user_id sorted
    × (let (r, (out, _)) = Listing.main toy 3 ([], as_root) in
        (r ≡ ret tt) × (out ≡ map Listing.line sorted))
list_prints_example =
    list_prints toy toy_enumeration (root ∷ fred ∷ []) 3 as_root
      (root_passwd-IsPasswdOf, (fred_passwd-IsPasswdOf, tt)) (omega arith)

groups_prints_example :
    (own access : List Group) × (let (r, (out, _)) = Groups.main toy ([], (new, as_fred)) in
      (r ≡ ret tt)
      × (out ≡ map Groups.line own ++ group_access_list_title ∷ map Groups.line access))
    × IsAscending group_id own
    × IsAscending group_id access
    × ((j : ℕ)
        → HasKey group_id j own
          ↔ (InBuffer j (1337 ∷ 1337 ∷ []) × ((toy_directory as_fred).group_by_gid j ≢ none)))
    × ((j : ℕ)
        → HasKey group_id j access
          ↔ (InBuffer j (1337 ∷ []) × ((toy_directory as_fred).group_by_gid j ≢ none)))
unfolding has_nul nat_eq
groups_prints_example =
    groups_prints toy toy_groups as_fred (toy_directory as_fred) (toy_unique as_fred) fred refl
      (ground arith) (omega arith) (omega arith)

profiles_print_example :
    (let (r, (out, _)) = example_main toy ([], (new, as_fred)) in
      (r, out)
      ≡ example_report toy as_fred (toy_directory as_fred) (toy_unique as_fred) (some fred))
    × (let (r, (out, _)) = os_main toy ([], (new, as_fred)) in
        (r, out) ≡ os_report toy as_fred (toy_directory as_fred) (toy_unique as_fred) (some fred))
unfolding nat_eq
profiles_print_example = profiles_print toy as_fred (toy_directory as_fred) (toy_unique as_fred)
