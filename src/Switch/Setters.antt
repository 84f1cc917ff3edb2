-- ===== src/Switch/Setters.antt =====
-- The six functions that set IDs, against the calls that they make.
use rust_users.Prelude.{ℕ, zero, suc, ◌≡◌, ◌⊎◌, ◌↔◌, arith}
use rust_users.Prelude.Int.{ℤ, pos, negsuc}
use rust_users.Std.Exec.{Exec, ret, stop, unreachable, IoResult, ok, err}
use rust_users.Libc.{Libc}
use rust_users.Switch.{
  check, set_current_uid, set_current_gid, set_effective_uid, set_effective_gid, set_both_uid,
  set_both_gid,
}

module _ (L : Libc) where
  -- What a setter makes of the answer of its call: `Ok` exactly for 0, `Err` with `errno` exactly
  -- for -1, and a panic for all else. The world is as the call left it.
  abbrev Follows : Exec L.World (IoResult Unit) → (L.World → ℤ × L.World) → Type 0
  Follows m f =
      (w : L.World)
      → ((m w).1 ≡ (f w).1)
        × (((m w).0 ≡ ret (ok tt)) ↔ ((f w).0 ≡ pos 0))
        × (((m w).0 ≡ ret (err (L.errno (f w).1))) ↔ ((f w).0 ≡ negsuc 0))
        × (((f w).0 ≡ pos 0) ⊎ ((f w).0 ≡ negsuc 0) ⊎ ((m w).0 ≡ stop (unreachable (f w).0)))

  check_lem :
      (r : ℤ) (w : L.World)
      → ((check L r w).1 ≡ w)
        × (((check L r w).0 ≡ ret (ok tt)) ↔ (r ≡ pos 0))
        × (((check L r w).0 ≡ ret (err (L.errno w))) ↔ (r ≡ negsuc 0))
        × ((r ≡ pos 0) ⊎ (r ≡ negsuc 0) ⊎ ((check L r w).0 ≡ stop (unreachable r)))
  unfolding check
  check_lem (pos zero) w = ground arith
  check_lem (pos (suc n)) w = ground arith
  check_lem (negsuc zero) w = ground arith
  check_lem (negsuc (suc n)) w = ground arith

  -- Each of the six setters makes its own call, with the arguments in their order, and leaves the
  -- world as the call does. It returns `Ok` exactly if the call returned 0, and the `Err` of
  -- `errno` exactly if it returned -1; for any other value it panics.
  pub setters_lem :
      (id other : ℕ)
      → Follows (set_current_uid L id) (L.setuid id)
        × Follows (set_current_gid L id) (L.setgid id)
        × Follows (set_effective_uid L id) (L.seteuid id)
        × Follows (set_effective_gid L id) (L.setegid id)
        × Follows (set_both_uid L id other) (L.setreuid id other)
        × Follows (set_both_gid L id other) (L.setregid id other)
  unfolding set_current_uid set_current_gid set_effective_uid set_effective_gid set_both_uid
      set_both_gid
  setters_lem id other = (
    λ w. check_lem (L.setuid id w).0 (L.setuid id w).1,
    λ w. check_lem (L.setgid id w).0 (L.setgid id w).1,
    λ w. check_lem (L.seteuid id w).0 (L.seteuid id w).1,
    λ w. check_lem (L.setegid id w).0 (L.setegid id w).1,
    λ w. check_lem (L.setreuid id other w).0 (L.setreuid id other w).1,
    λ w. check_lem (L.setregid id other w).0 (L.setregid id other w).1,
  )
