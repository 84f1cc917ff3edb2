-- ===== src/Examples/Groups.antt =====
-- examples/groups.rs: the groups of the user, and of the process, each list sorted by ID.
use mathlib.Core.List.{append_assoc}
use rust_users.Prelude.{
  ℕ, ◌≤◌, ◌≡◌, ◌≢◌, ◌↔◌, false, none, some, List, [], ◌∷◌, ◌++◌, map, length, arith, nat_eq,
}
use rust_users.Std.Exec.{Exec, ret, stop, expected, os, expect, expect_ok, ◌>>=◌, ◌>>◌}
use rust_users.Std.Ffi.{has_nul}
use rust_users.Std.Sort.{sort_by, IsAscending, sort_by-IsAscending, sort_by-Any}
use rust_users.Libc.{Libc}
use rust_users.Libc.Lists.{GroupCalls}
use rust_users.Base.Types.{User, Group, group_id, group_name_of, user_name_of, primary_group_id}
use rust_users.Base.Directory.{Directory}
use rust_users.Base.GroupLists.{buffer_size, get_user_groups, group_access_list}
use rust_users.Base.GroupLists.Dedup.{HasKey}
use rust_users.Base.GroupLists.Results.{InBuffer, group_access_list_lem, get_user_groups_lem}
use rust_users.Cache.{UsersCache, new, get_current_uid, get_user_by_uid}
use rust_users.Cache.Answers.{IsUnique}
use rust_users.Examples.CurrentUser.{current_user_lem}
use rust_users.Examples.Output.{
  Line, group_has_name, group_access_list_title, print, print_all, print_all_lem,
}

abbrev pub line : Group → Line
unfolding group_id group_name_of
line group = group_has_name (group_id group) (group_name_of group)

-- The state: what is printed, the cache, and the system.
abbrev pub State : Libc → Type 0
State L = List Line × (UsersCache × L.World)

module _ (L : Libc) where
  unfoldable pub main : Exec (State L) (Unit {0})
  unfolding user_name_of primary_group_id line
  main = do
    uid ← os (get_current_uid L)
    user ← os (get_user_by_uid L uid)
    user ← expect "No current user?" user
    groups ← os (os (get_user_groups L (user_name_of user) (primary_group_id user)))
    groups ← expect "No user groups?" groups
    print_all line (sort_by group_id groups)
    groups ← os (os (group_access_list L))
    groups ← expect_ok "Group access list" groups
    let sorted = sort_by group_id groups
    print group_access_list_title
    print_all line sorted

module _ (L : Libc) (G : GroupCalls L) (w : L.World) (D : Directory L w) (Q : IsUnique L w D) where
  -- Without a user for the real ID the program panics, and prints nothing.
  groups_panics :
      D.user_by_uid (L.getuid w) ≡ none
      → let (r, (out, _)) = main L ([], (new, w)) in
        (r ≡ stop (expected "No current user?")) × (out ≡ [])
  unfolding main
  groups_panics e = let (c, p, c', t, q) = current_user_lem L w D Q in ground (arith, p, q)

  -- Over a directory that holds still and whose IDs are unique, with a user for the real ID, whose
  -- name has no zero byte, and lists of groups that fit the buffer, the program ends and prints two
  -- lists, with the title in between. In each the IDs do not fall, and they are those of the lists of
  -- the system that have a group, and 0 too if 0 has a group and the list is shorter than the buffer.
  pub groups_prints :
      (u : User)
      → D.user_by_uid (L.getuid w) ≡ some u
      → has_nul u.name_arc ≡ false
      → length (G.groups_of w (u.name_arc ++ 0 ∷ []) u.primary_group) ≤ buffer_size
      → length (G.access w) ≤ buffer_size
      → (own access : List Group) × (let (r, (out, _)) = main L ([], (new, w)) in
          (r ≡ ret tt) × (out ≡ map line own ++ group_access_list_title ∷ map line access))
        × IsAscending group_id own
        × IsAscending group_id access
        × ((j : ℕ)
            → HasKey group_id j own ↔ (
                InBuffer j (G.groups_of w (u.name_arc ++ 0 ∷ []) u.primary_group)
                × (D.group_by_gid j ≢ none)))
        × ((j : ℕ)
            → HasKey group_id j access ↔ (InBuffer j (G.access w) × (D.group_by_gid j ≢ none)))
  unfolding main group_id user_name_of primary_group_id
  groups_prints u e plain fits fits' =
      let (c, p, c', t, q) = current_user_lem L w D Q in
      let (gs, listed, keys) =
        get_user_groups_lem L G w D u.name_arc u.primary_group Q.group_own plain fits in
      let (listed_too, allowed, _, keys') = group_access_list_lem L G w D Q.group_own fits' in
      let own : List Group = sort_by group_id gs in
      let access : List Group = sort_by group_id listed_too in
      let s : UsersCache × L.World = (c', w) in
      (
        own,
        access,
        ground (
          arith,
          p,
          q,
          listed,
          allowed,
          print_all_lem line own [] s,
          print_all_lem line access (map line own ++ group_access_list_title ∷ []) s,
          append_assoc (map line own) (group_access_list_title ∷ []) (map line access),
        ),
        sort_by-IsAscending group_id gs,
        sort_by-IsAscending group_id listed_too,
        λ j. ground (arith, keys j, sort_by-Any group_id (λ x. group_id x ≡ j) gs),
        λ j. ground (arith, keys' j, sort_by-Any group_id (λ x. group_id x ≡ j) listed_too),
      )
