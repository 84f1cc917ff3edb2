-- ===== src/Base/GroupLists/Primary.antt =====
-- `User::groups`, on a system whose `getgrouplist` keeps to its documentation.
use rust_users.Prelude.{ℕ, ◌≤◌, ◌≡◌, ◌≢◌, inl, false, none, some, List, [], ◌∷◌, ◌++◌, length}
use rust_users.Std.Exec.{ret}
use rust_users.Std.Ffi.{has_nul}
use rust_users.Libc.{Libc}
use rust_users.Libc.Lists.{GroupCalls}
use rust_users.Base.Types.{User, Group, user_name_of, primary_group_id, group_id}
use rust_users.Base.Directory.{Directory}
use rust_users.Base.GroupLists.{user_groups, buffer_size}
use rust_users.Base.GroupLists.Dedup.{HasKey}
use rust_users.Base.GroupLists.Results.{IsOwn, get_user_groups_lem}

-- Over a directory where groups stand under their own IDs: for a user whose name has no zero byte,
-- whose list of groups fits the buffer and whose primary group exists, `User::groups` returns
-- groups, the primary group is one of them, and each ID in them is one that has a group.
pub user_groups_lem :
    (L : Libc) (G : GroupCalls L) (w : L.World) (D : Directory L w) (u : User)
    → IsOwn D
    → has_nul (user_name_of u) ≡ false
    → length (G.groups_of w (user_name_of u ++ 0 ∷ []) (primary_group_id u)) ≤ buffer_size
    → D.group_by_gid (primary_group_id u) ≢ none
    → (groups : List Group) × (user_groups L u w ≡ (ret (some groups), w))
      × HasKey group_id (primary_group_id u) groups
      × ((j : ℕ) → HasKey group_id j groups → D.group_by_gid j ≢ none)
unfolding user_groups group_id
user_groups_lem L G w D u own plain fits known =
    let name = user_name_of u in
    let gid = primary_group_id u in
    let (groups, e, keys) = get_user_groups_lem L G w D name gid own plain fits in
    (
      groups,
      e,
      (keys gid).1 (inl (G.groups_of_has w (name ++ 0 ∷ []) gid), known),
      λ j h. ((keys j).0 h).1,
    )
