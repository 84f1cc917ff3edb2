-- ===== src/Base/MacOs.antt =====
-- base.rs: `get_user_groups` on macOS, where `getgrouplist` works on `i32` in place of `gid_t`.
pub mod Casts
use rust_users.Prelude.{
  ℕ, Bool, true, false, Option, none, some, List, [], ◌∷◌, map, replicate, ltb, ◌-◌, ◌^◌, ◌==◌,
  nat_eq, if◌then◌else◌,
}
use rust_users.Prelude.Int.{ℤ, pos, negsuc, is_negative}
use rust_users.Std.Exec.{Exec, interior_nul, pure, throw, call, ◌>>=◌}
use rust_users.Std.Ffi.{OsString, cstring_new}
use rust_users.Libc.{Libc}
use rust_users.Base.Types.{Group}
use rust_users.Base.GroupLists.{buffer_size, collect_groups}

-- `gid as i32`, of a `gid_t`
pub as_i32 : ℕ → ℤ
as_i32 gid = if ltb gid (2 ^ 31) then pos gid else negsuc (2 ^ 32 - 1 - gid)

-- `i as gid_t`, of an `i32`
pub as_gid : ℤ → ℕ
as_gid (pos n) = n
as_gid (negsuc n) = 2 ^ 32 - 1 - n

-- The equality of `i32`.
pub same : ℤ → ℤ → Bool
same (pos m) (pos n) = m == n
same (negsuc m) (negsuc n) = m == n
same (pos m) (negsuc n) = false
same (negsuc m) (pos n) = false

-- `Vec::dedup`, with the element before.
unfoldable pub dedup_after : ℤ → List ℤ → List ℤ
dedup_after k [] = []
dedup_after k (x ∷ xs) = elim (same x k) [ true ↦ dedup_after k xs | false ↦ x ∷ dedup_after x xs ]

pub dedup : List ℤ → List ℤ
unfolding dedup_after
dedup [] = []
dedup (x ∷ xs) = x ∷ dedup_after x xs

-- `getgrouplist`, with the name, the group, the array and `count`, on a world.
abbrev pub GetGroupList : Type 0 → Type 0
GetGroupList W = List ℕ → ℤ → List ℤ → ℕ → W → ℤ × List ℤ × W

-- `vec![0; 1024]`
unfoldable pub buffer : List ℤ
buffer = replicate buffer_size (pos 0)

module _ (L : Libc) (getgrouplist : GetGroupList L.World) where
  unfoldable pub get_user_groups : OsString → ℕ → Exec L.World (Option (List Group))
  get_user_groups username gid = elim (cstring_new username) [
    | none ↦ throw interior_nul
    | some name ↦ do
      (res, buff) ← call λ w.
          let (res, buff, w') = getgrouplist name (as_i32 gid) buffer buffer_size w in
          ((res, buff), w')
      if is_negative res
          then pure none
          else do groups ← collect_groups L (map as_gid (dedup buff)); pure (some groups)
  ]
