-- ===== src/Libc/Lists.antt =====
-- What the documentation of `getgroups` and `getgrouplist` promises, as hypotheses: they write the
-- IDs to the front of the array, which keeps the rest, or fail if it is too short.
use rust_users.Prelude.{ℕ, ◌<◌, ◌≤◌, ◌≡◌, List, ◌++◌, length, drop, Any}
use rust_users.Prelude.Int.{pos, negsuc}
use rust_users.Libc.{Libc}

-- `access` is the group access list of the process, `groups_of` the groups of a user.
pub record GroupCalls (L : Libc) : Type 0 where
  pub access : L.World → List ℕ
  pub groups_of : L.World → List ℕ → ℕ → List ℕ
  -- The group argument is among the groups of the user.
  pub groups_of_has :
      (w : L.World) (name : List ℕ) (gid : ℕ) → Any (λ i. i ≡ gid) (groups_of w name gid)
  pub getgroups_writes :
      (size : ℕ) (buff : List ℕ) (w : L.World)
      → length (access w) ≤ size
      → L.getgroups size buff w
        ≡ (pos (length (access w)), access w ++ drop (length (access w)) buff, w)
  pub getgroups_fails :
      (size : ℕ) (buff : List ℕ) (w : L.World)
      → size < length (access w)
      → (L.getgroups size buff w).0 ≡ negsuc 0
  pub getgrouplist_writes :
      (name : List ℕ) (gid : ℕ) (buff : List ℕ) (count : ℕ) (w : L.World)
      → length (groups_of w name gid) ≤ count
      → L.getgrouplist name gid buff count w ≡ (
        pos (length (groups_of w name gid)),
        groups_of w name gid ++ drop (length (groups_of w name gid)) buff,
        w,
      )
  pub getgrouplist_fails :
      (name : List ℕ) (gid : ℕ) (buff : List ℕ) (count : ℕ) (w : L.World)
      → count < length (groups_of w name gid)
      → (L.getgrouplist name gid buff count w).0 ≡ negsuc 0
