-- ===== src/Cache/Cells.antt =====
-- cache.rs: the methods that ask for the four IDs of the process, each kept in a `Cell`.
use mathlib.Core.Option.{get_or}
use rust_users.Prelude.{◌≡◌, Option-cases, inl, inr, some, arith}
use rust_users.Std.Exec.{ret}
use rust_users.Libc.{Libc}
use rust_users.Cache.{
  UsersCache, get_current_uid, get_effective_uid, get_current_gid, get_effective_gid,
}

module _ (L : Libc) (c : UsersCache) (w : L.World) where
  pub get_current_uid_lem :
      let i = get_or c.uid (L.getuid w) in
      get_current_uid L (c, w) ≡ (ret i, (record c { uid = some i }, w))
  unfolding get_current_uid
  get_current_uid_lem = elim (Option-cases c.uid) [
    | inl e ↦ ground arith
    | inr (i, e) ↦ ground arith
  ]

  pub get_effective_uid_lem :
      let i = get_or c.euid (L.geteuid w) in
      get_effective_uid L (c, w) ≡ (ret i, (record c { euid = some i }, w))
  unfolding get_effective_uid
  get_effective_uid_lem = elim (Option-cases c.euid) [
    | inl e ↦ ground arith
    | inr (i, e) ↦ ground arith
  ]

  pub get_current_gid_lem :
      let i = get_or c.gid (L.getgid w) in
      get_current_gid L (c, w) ≡ (ret i, (record c { gid = some i }, w))
  unfolding get_current_gid
  get_current_gid_lem = elim (Option-cases c.gid) [
    | inl e ↦ ground arith
    | inr (i, e) ↦ ground arith
  ]

  pub get_effective_gid_lem :
      let i = get_or c.egid (L.getegid w) in
      get_effective_gid L (c, w) ≡ (ret i, (record c { egid = some i }, w))
  unfolding get_effective_gid
  get_effective_gid_lem = elim (Option-cases c.egid) [
    | inl e ↦ ground arith
    | inr (i, e) ↦ ground arith
  ]

  -- After any cache was asked for one of the four IDs, it returns the same ID in any later world,
  -- and changes neither itself nor the world.
  ids_are_kept :
      (v : L.World)
      → (let (_, (c', _)) = get_current_uid L (c, w) in
          get_current_uid L (c', v) ≡ (ret (get_or c.uid (L.getuid w)), (c', v)))
        × (let (_, (c', _)) = get_effective_uid L (c, w) in
            get_effective_uid L (c', v) ≡ (ret (get_or c.euid (L.geteuid w)), (c', v)))
        × (let (_, (c', _)) = get_current_gid L (c, w) in
            get_current_gid L (c', v) ≡ (ret (get_or c.gid (L.getgid w)), (c', v)))
        × (let (_, (c', _)) = get_effective_gid L (c, w) in
            get_effective_gid L (c', v) ≡ (ret (get_or c.egid (L.getegid w)), (c', v)))
  unfolding get_current_uid get_effective_uid get_current_gid get_effective_gid
  ids_are_kept v = (
    rw get_current_uid_lem (ground arith),
    rw get_effective_uid_lem (ground arith),
    rw get_current_gid_lem (ground arith),
    rw get_effective_gid_lem (ground arith),
  )
