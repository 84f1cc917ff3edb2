-- ===== src/Base/MacOs/Casts.antt =====
-- The casts between `gid_t` and `i32`, and macOS against Linux.
use rust_users.Prelude.{
  ℕ, zero, suc, ◌<◌, ◌≡◌, refl, Bool-cases, inl, inr, Option, none, some, List, [], ◌∷◌, map, All,
  replicate, ltb, ◌^◌, ◌==◌, nat_eq, arith,
}
use rust_users.Prelude.Int.{ℤ, pos, negsuc}
use rust_users.Std.Ffi.{OsString, cstring_new}
use rust_users.Libc.{Libc}
use rust_users.Base.GroupLists
use rust_users.Base.GroupLists.{buffer_size, collect_groups}
use rust_users.Base.MacOs
use rust_users.Base.MacOs.{as_i32, as_gid, same, dedup_after, dedup, GetGroupList}

-- A value of the type `i32`.
abbrev IsI32 : ℤ → Type 0
IsI32 (pos n) = n < 2 ^ 31
IsI32 (negsuc n) = n < 2 ^ 31

as_gid-as_i32 : (gid : ℕ) → gid < 2 ^ 32 → as_gid (as_i32 gid) ≡ gid
unfolding as_gid as_i32
as_gid-as_i32 gid h = elim (Bool-cases (ltb gid (2 ^ 31))) [
  | inl e ↦ rw e refl
  | inr e ↦ rw e (omega arith)
]

-- Values of `i32` are equal exactly when their casts are.
same-as_gid : (x y : ℤ) → IsI32 x → IsI32 y → (as_gid x == as_gid y) ≡ same x y
unfolding as_gid same
same-as_gid (pos m) (pos n) h k = refl
same-as_gid (negsuc m) (negsuc n) h k = ground arith
same-as_gid (pos m) (negsuc n) h k = ground arith
same-as_gid (negsuc m) (pos n) h k = ground arith

map-dedup_after :
    (k : ℤ) (xs : List ℤ)
    → IsI32 k
    → All IsI32 xs
    → map as_gid (dedup_after k xs) ≡ GroupLists.dedup_after (λ i. i) (as_gid k) (map as_gid xs)
unfolding dedup_after GroupLists.dedup_after
map-dedup_after k [] h g = refl
map-dedup_after k (x ∷ xs) h (g, gs) =
    ground (arith, same-as_gid x k g h, map-dedup_after k xs h gs, map-dedup_after x xs g gs)

map-dedup : (xs : List ℤ) → All IsI32 xs → map as_gid (dedup xs) ≡ GroupLists.dedup (map as_gid xs)
unfolding dedup GroupLists.dedup_by_key
map-dedup [] h = refl
map-dedup (x ∷ xs) (h, hs) = ground (arith, map-dedup_after x xs h hs)

abbrev pub IsGid : ℕ → Type 0
IsGid gid = gid < 2 ^ 32

as_i32-IsI32 : (gid : ℕ) → IsGid gid → IsI32 (as_i32 gid)
unfolding as_i32
as_i32-IsI32 gid h = elim (Bool-cases (ltb gid (2 ^ 31))) [
  | inl e ↦ rw e (ground arith)
  | inr e ↦ rw e (ground arith)
]

cast-All : (gids : List ℕ) → All IsGid gids → All IsI32 (map as_i32 gids)
cast-All [] h = tt
cast-All (gid ∷ gids) (h, hs) = (as_i32-IsI32 gid h, cast-All gids hs)

cast_back : (gids : List ℕ) → All IsGid gids → map as_gid (map as_i32 gids) ≡ gids
cast_back [] h = refl
cast_back (gid ∷ gids) (h, hs) = ground (arith, as_gid-as_i32 gid h, cast_back gids hs)

map-zeros : (n : ℕ) → map as_gid (replicate n (pos 0)) ≡ replicate n 0
unfolding as_gid
map-zeros zero = refl
map-zeros (suc n) = ground (arith, map-zeros n)

map-buffer : map as_gid MacOs.buffer ≡ GroupLists.buffer
unfolding GroupLists.buffer MacOs.buffer
map-buffer = map-zeros buffer_size

module _ (L : Libc) where
  -- The same C library with the types of macOS: it reads and writes the same bits as `i32`.
  abbrev pub with_i32 : GetGroupList L.World
  with_i32 name gid buff count w =
      let (res, buff', w') = L.getgrouplist name (as_gid gid) (map as_gid buff) count w in
      (res, map as_i32 buff', w')

  -- Where the ID of the group has 32 bits, and so has each ID in the array after the call, which
  -- `gid_t` guarantees, `get_user_groups` on macOS gives what it gives on Linux with a C library that
  -- reads and writes the same bits: the casts to `i32` and back, and the comparison of neighbours as
  -- signed numbers, change nothing.
  pub macos_agrees :
      (username : OsString) (gid : ℕ) (w : L.World)
      → IsGid gid
      → ((name : List ℕ) → All IsGid (L.getgrouplist name gid GroupLists.buffer buffer_size w).1)
      → MacOs.get_user_groups L with_i32 username gid w
        ≡ GroupLists.get_user_groups L username gid w
  unfolding MacOs.get_user_groups GroupLists.get_user_groups
  macos_agrees username gid w h ranged = named (cstring_new username) refl
    where
      named :
          (c : Option (List ℕ))
          → cstring_new username ≡ c
          → MacOs.get_user_groups L with_i32 username gid w
            ≡ GroupLists.get_user_groups L username gid w
      named none e = ground arith
      named (some name) e =
          let buff = (L.getgrouplist name gid GroupLists.buffer buffer_size w).1 in
          ground (
            arith,
            map-buffer,
            as_gid-as_i32 gid h,
            map-dedup (map as_i32 buff) (cast-All buff (ranged name)),
            cast_back buff (ranged name),
          )
