-- ===== src/Base/GroupLists.antt =====
-- base.rs: `group_access_list` and `get_user_groups`. Both pass a buffer of 1024 zeros, and both
-- read all of it afterwards, whatever number of IDs was written.
pub mod Dedup
pub mod Results
pub mod Primary
pub mod Collect
use rust_users.Prelude.{
  ℕ, true, false, Option, none, some, List, [], ◌∷◌, replicate, ◌==◌, nat_eq, if◌then◌else◌,
}
use rust_users.Prelude.Int.{ℤ, is_negative}
use rust_users.Std.Exec.{Exec, IoResult, ok, err, interior_nul, pure, throw, call, gets, ◌>>=◌}
use rust_users.Std.Ffi.{OsString, cstring_new}
use rust_users.Libc.{Libc}
use rust_users.Base.Types.{User, Group, user_name_of, primary_group_id}
use rust_users.Base.Lookup.{get_group_by_gid}

-- `vec![0; 1024]`
abbrev pub buffer_size : ℕ
buffer_size = 1024

unfoldable pub buffer : List ℕ
buffer = replicate buffer_size 0

module _ {A : Type 0} (key : A → ℕ) where
  -- What `Vec::dedup_by_key` keeps after an element with the key `k`.
  unfoldable pub dedup_after : ℕ → List A → List A
  dedup_after k [] = []
  dedup_after k (x ∷ xs) = elim (key x == k) [
    | true ↦ dedup_after k xs
    | false ↦ x ∷ dedup_after (key x) xs
  ]

  unfoldable pub dedup_by_key : List A → List A
  unfolding dedup_after
  dedup_by_key [] = []
  dedup_by_key (x ∷ xs) = x ∷ dedup_after (key x) xs

-- `Vec::dedup`
abbrev pub dedup : List ℕ → List ℕ
dedup = dedup_by_key λ i. i

-- One step of `filter_map`.
abbrev pub keep : {A : Type 0} → Option A → List A → List A
keep none xs = xs
keep (some x) xs = x ∷ xs

module _ (L : Libc) where
  -- `.filter_map(get_group_by_gid).collect()`
  unfoldable pub collect_groups : List ℕ → Exec L.World (List Group)
  collect_groups [] = pure []
  collect_groups (gid ∷ gids) = do
    group ← get_group_by_gid L gid
    groups ← collect_groups gids
    pure (keep group groups)

  abbrev getgroups : L.World → (ℤ × List ℕ) × L.World
  getgroups w = let (res, buff, w') = L.getgroups buffer_size buffer w in ((res, buff), w')

  unfoldable pub group_access_list : Exec L.World (IoResult (List Group))
  group_access_list = do
    (res, buff) ← call getgroups
    if is_negative res
        then (do errno ← gets L.errno; pure (err errno))
        else do groups ← collect_groups buff; pure (ok (dedup_by_key (λ g. g.gid) groups))

  abbrev getgrouplist : List ℕ → ℕ → L.World → (ℤ × List ℕ) × L.World
  getgrouplist name gid w =
      let (res, buff, w') = L.getgrouplist name gid buffer buffer_size w in ((res, buff), w')

  -- Unlike the lookups by name, this panics on a name with a zero byte.
  unfoldable pub get_user_groups : OsString → ℕ → Exec L.World (Option (List Group))
  get_user_groups username gid = elim (cstring_new username) [
    | none ↦ throw interior_nul
    | some name ↦ do
      (res, buff) ← call (getgrouplist name gid)
      if is_negative res
          then pure none
          else do groups ← collect_groups (dedup buff); pure (some groups)
  ]

  -- `User::groups`
  unfoldable pub user_groups : User → Exec L.World (Option (List Group))
  unfolding user_name_of primary_group_id
  user_groups u = get_user_groups (user_name_of u) (primary_group_id u)
