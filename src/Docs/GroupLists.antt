-- ===== src/Docs/GroupLists.antt =====
-- base.rs: the examples of the lists of groups.
use rust_users.Prelude.{
  ℕ, ◌≤◌, ◌≡◌, ◌≢◌, ◌↔◌, refl, none, List, [], ◌∷◌, ◌++◌, map, length, codes, arith, nat_eq,
}
use rust_users.Std.Exec.{Exec, ret, expect, expect_ok, os, ◌>>=◌}
use rust_users.Std.Ffi.{has_nul}
use rust_users.Libc.{Libc}
use rust_users.Libc.Lists.{GroupCalls}
use rust_users.Base.Types.{Group, new_user, group_id, group_name_of, user_name_of, primary_group_id}
use rust_users.Base.Directory.{Directory}
use rust_users.Base.GroupLists.{buffer_size, group_access_list, get_user_groups, user_groups}
use rust_users.Base.GroupLists.Dedup.{HasKey}
use rust_users.Base.GroupLists.Results.{InBuffer, IsOwn, group_access_list_lem, get_user_groups_lem}
use rust_users.Docs.Output.{Line, print_all, print_all_lem}

module _ (L : Libc) where
  -- `User::groups`
  groups_of_user : Exec (List Line × L.World) (Unit {0})
  groups_of_user = do
    groups ← os (user_groups L (new_user 501 (codes "stevedore") 100))
    groups ← expect "User not found" groups
    print_all (λ g. Line.user_in_group (group_name_of g)) groups

  pub access_list : Exec (List Line × L.World) (Unit {0})
  access_list = do
    groups ← os (group_access_list L)
    groups ← expect_ok "Error looking up groups" groups
    print_all (λ g. Line.process_can_access (group_id g) (group_name_of g)) groups

  groups_by_name : Exec (List Line × L.World) (Unit {0})
  groups_by_name = do
    groups ← os (get_user_groups L (codes "stevedore") 1001)
    groups ← expect "Error looking up groups" groups
    print_all (λ g. Line.user_is_member (group_id g) (group_name_of g)) groups

module _ (L : Libc) (G : GroupCalls L) (w : L.World) (D : Directory L w) where
  abbrev stevedore : ℕ → List ℕ
  stevedore gid = G.groups_of w (codes "stevedore" ++ 0 ∷ []) gid

  -- The example prints the groups of these IDs, one line for each.
  abbrev PrintsGroups : Exec (List Line × L.World) (Unit {0}) → (Group → Line) → List ℕ → Type 0
  PrintsGroups example line ids =
      (groups : List Group) × (example ([], w) ≡ (ret tt, (map line groups, w)))
      × ((j : ℕ)
          → HasKey (λ (g : Group). g.gid) j groups ↔ (InBuffer j ids × (D.group_by_gid j ≢ none)))

  -- Over a directory where groups stand under their own IDs, with lists of groups that fit the
  -- buffer, the three examples end, leave the world as it is, and print a line for each group that
  -- is found: the IDs of these are those of the list of the system that have a group, and 0 too if 0
  -- has a group and the list is shorter than the buffer.
  group_examples_print :
      IsOwn D
      → length (stevedore 100) ≤ buffer_size
      → length (G.access w) ≤ buffer_size
      → length (stevedore 1001) ≤ buffer_size
      → PrintsGroups (groups_of_user L) (λ g. Line.user_in_group g.name_arc) (stevedore 100)
        × PrintsGroups (access_list L) (λ g. Line.process_can_access g.gid g.name_arc) (G.access w)
        × PrintsGroups
            (groups_by_name L)
            (λ g. Line.user_is_member g.gid g.name_arc)
            (stevedore 1001)
  unfolding groups_of_user access_list groups_by_name user_groups new_user group_id group_name_of
      user_name_of primary_group_id has_nul nat_eq
  group_examples_print own fits fits' fits'' =
      let (gs, p, keys) = get_user_groups_lem L G w D (codes "stevedore") 100 own refl fits in
      let (gs', p', _, keys') = group_access_list_lem L G w D own fits' in
      let (gs'', p'', keys'') =
        get_user_groups_lem L G w D (codes "stevedore") 1001 own refl fits'' in
      (
        (
          gs,
          ground (arith, p, print_all_lem (λ (g : Group). Line.user_in_group g.name_arc) gs [] w),
          keys,
        ),
        (
          gs',
          ground (
            arith,
            p',
            print_all_lem (λ (g : Group). Line.process_can_access g.gid g.name_arc) gs' [] w,
          ),
          keys',
        ),
        (
          gs'',
          ground (
            arith,
            p'',
            print_all_lem (λ (g : Group). Line.user_is_member g.gid g.name_arc) gs'' [] w,
          ),
          keys'',
        ),
      )
