-- ===== src/Base/GroupLists/Results.antt =====
-- What `group_access_list` and `get_user_groups` return. Both read the zeros behind the IDs that
-- were written.
use rust_users.Prelude.{
  ℕ, ◌<◌, ◌≤◌, ◌≡◌, ◌≢◌, ◌↔◌, ◌⊎◌, true, false, none, some, List, [], ◌∷◌, ◌++◌, length, drop,
  arith, Any,
}
use rust_users.Std.Exec.{ret, stop, ok, err, interior_nul}
use rust_users.Std.Ffi.{OsString, has_nul, cstring_new}
use rust_users.Libc.{Libc}
use rust_users.Libc.Lists.{GroupCalls}
use rust_users.Base.Types.{Group}
use rust_users.Base.Directory.{Directory}
use rust_users.Base.Lookup.{get_user_by_name, get_group_by_name}
use rust_users.Base.GroupLists.{
  buffer_size, buffer, dedup, dedup_by_key, group_access_list, get_user_groups,
}
use rust_users.Base.GroupLists.Dedup.{HasKey, NoRepeats, dedup_by_key_lem}
use rust_users.Base.GroupLists.Collect.{Any-buffer, groups_at, collect_groups_lem, groups_at-HasKey}

-- The ID was written, or it is one of the zeros behind what was written.
abbrev pub InBuffer : ℕ → List ℕ → Type 0
InBuffer j ids = Any (λ i. i ≡ j) ids ⊎ ((length ids < buffer_size) × (j ≡ 0))

abbrev pub IsOwn : {L : Libc} {w : L.World} → Directory L w → Type 0
IsOwn D = (gid : ℕ) (g : Group) → D.group_by_gid gid ≡ some g → g.gid ≡ gid

-- The buffer after a call that writes these IDs.
abbrev filled : List ℕ → List ℕ
filled ids = ids ++ drop (length ids) buffer

module _ (L : Libc) (w : L.World) (D : Directory L w) where
  filled-HasKey :
      IsOwn D
      → (ids : List ℕ) (j : ℕ)
      → HasKey (λ (g : Group). g.gid) j (groups_at L w D (filled ids))
        ↔ (InBuffer j ids × (D.group_by_gid j ≢ none))
  filled-HasKey own ids j =
      ground (arith, groups_at-HasKey L w D j (filled ids) own, Any-buffer j ids)

  dedup-filled-HasKey :
      IsOwn D
      → (ids : List ℕ) (j : ℕ)
      → HasKey (λ (g : Group). g.gid) j (groups_at L w D (dedup (filled ids)))
        ↔ (InBuffer j ids × (D.group_by_gid j ≢ none))
  dedup-filled-HasKey own ids j = ground (
    arith,
    groups_at-HasKey L w D j (dedup (filled ids)) own,
    (dedup_by_key_lem (λ (i : ℕ). i) (filled ids)).1 j,
    Any-buffer j ids,
  )

module _ (L : Libc) (G : GroupCalls L) (w : L.World) (D : Directory L w) where
  -- Over a directory where groups stand under their own IDs, with an access list that fits the
  -- buffer, the call succeeds and the world stays as it is. No two neighbours in the result have
  -- the same ID, and the IDs in it are those of the access list that have a group, and 0 too if 0
  -- has a group and the list is shorter than the buffer.
  pub group_access_list_lem :
      IsOwn D
      → length (G.access w) ≤ buffer_size
      → (groups : List Group) × (group_access_list L w ≡ (ret (ok groups), w))
        × NoRepeats (λ (g : Group). g.gid) groups
        × ((j : ℕ)
            → HasKey (λ (g : Group). g.gid) j groups
              ↔ (InBuffer j (G.access w) × (D.group_by_gid j ≢ none)))
  unfolding group_access_list
  group_access_list_lem own fits =
      let found : List Group = groups_at L w D (filled (G.access w)) in
      let (distinct, keys) = dedup_by_key_lem (λ (g : Group). g.gid) found in
      (
        dedup_by_key (λ g. g.gid) found,
        ground (
          arith,
          G.getgroups_writes buffer_size buffer w fits,
          collect_groups_lem L w D (filled (G.access w)),
        ),
        distinct,
        λ j. ground (arith, keys j, filled-HasKey L w D own (G.access w) j),
      )

  -- Over a directory where groups stand under their own IDs, for a name without zero byte and with
  -- a list of groups that fits the buffer, the call succeeds and the world stays as it is. The IDs
  -- in the result are those of the list that have a group, and 0 too if 0 has a group and the list
  -- is shorter than the buffer.
  pub get_user_groups_lem :
      (name : OsString) (gid : ℕ)
      → IsOwn D
      → has_nul name ≡ false
      → length (G.groups_of w (name ++ 0 ∷ []) gid) ≤ buffer_size
      → (groups : List Group) × (get_user_groups L name gid w ≡ (ret (some groups), w))
        × ((j : ℕ)
            → HasKey (λ (g : Group). g.gid) j groups
              ↔ (InBuffer j (G.groups_of w (name ++ 0 ∷ []) gid) × (D.group_by_gid j ≢ none)))
  unfolding get_user_groups cstring_new
  get_user_groups_lem name gid own plain fits =
      let ids : List ℕ = G.groups_of w (name ++ 0 ∷ []) gid in
      (
        groups_at L w D (dedup (filled ids)),
        ground (
          arith,
          G.getgrouplist_writes (name ++ 0 ∷ []) gid buffer buffer_size w fits,
          collect_groups_lem L w D (dedup (filled ids)),
        ),
        dedup-filled-HasKey L w D own ids,
      )

module _ (L : Libc) (G : GroupCalls L) (w : L.World) where
  -- If the lists are longer than the buffer, and the name has no zero byte, `group_access_list`
  -- returns an `Err` and `get_user_groups` returns `None`.
  lists_too_long :
      (name : OsString) (gid : ℕ)
      → buffer_size < length (G.access w)
      → has_nul name ≡ false
      → buffer_size < length (G.groups_of w (name ++ 0 ∷ []) gid)
      → ((e : ℕ) × ((group_access_list L w).0 ≡ ret (err e)))
        × ((get_user_groups L name gid w).0 ≡ ret none)
  unfolding group_access_list get_user_groups cstring_new
  lists_too_long name gid long plain long' = (
    (
      L.errno (L.getgroups buffer_size buffer w).2,
      ground (arith, G.getgroups_fails buffer_size buffer w long),
    ),
    ground (arith, G.getgrouplist_fails (name ++ 0 ∷ []) gid buffer buffer_size w long'),
  )

-- For a name with a zero byte, the two lookups by name return `None` and `get_user_groups` panics.
-- The world stays as it is in each case.
pub nul_names :
    (L : Libc) (name : OsString) (gid : ℕ) (w : L.World)
    → has_nul name ≡ true
    → (get_user_by_name L name w ≡ (ret none, w))
      × (get_group_by_name L name w ≡ (ret none, w))
      × (get_user_groups L name gid w ≡ (stop interior_nul, w))
unfolding get_user_by_name get_group_by_name get_user_groups cstring_new
nul_names L name gid w h = (ground arith, ground arith, ground arith)
