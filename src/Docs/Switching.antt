-- ===== src/Docs/Switching.antt =====
-- switch.rs: the examples of its functions.
use rust_users.Prelude.{◌≡◌, arith, nat_eq}
use rust_users.Std.Exec.{Exec, ret, IoResult, ok}
use rust_users.Libc.{Libc}
use rust_users.Libc.Posix.{Posix}
use rust_users.Libc.Identity.{Identity}
use rust_users.Switch.{
  SwitchUserGuard, set_current_uid, set_current_gid, set_effective_uid, set_effective_gid,
  set_both_uid, set_both_gid, switch_user_group,
}
use rust_users.Switch.Guard.{switch_user_group_switches}
use rust_users.Switch.Setters.{setters_lem}

module _ (L : Libc) where
  current_uid : Exec L.World (IoResult (Unit {0}))
  current_uid = set_current_uid L 1001

  current_gid : Exec L.World (IoResult (Unit {0}))
  current_gid = set_current_gid L 1001

  effective_uid : Exec L.World (IoResult (Unit {0}))
  effective_uid = set_effective_uid L 1001

  effective_gid : Exec L.World (IoResult (Unit {0}))
  effective_gid = set_effective_gid L 1001

  both_uid : Exec L.World (IoResult (Unit {0}))
  both_uid = set_both_uid L 1001 1001

  both_gid : Exec L.World (IoResult (Unit {0}))
  both_gid = set_both_gid L 1001 1001

  -- The start of the block in the example of `switch_user_group`.
  guard : Exec L.World (IoResult SwitchUserGuard)
  guard = switch_user_group L 1001 1001

module _ (L : Libc) (P : Posix L) (I : Identity L P) (w : L.World) where
  -- A process whose effective user is 0 may run each of the examples, and the IDs after it are those
  -- that the comment in it names, with two exceptions. The comment on `set_both_gid` names the current
  -- user, which stays as it was; the current group is 1001. And in the block of `switch_user_group` the
  -- effective IDs are 1001, but the real IDs, which the comment names as current too, stay as they
  -- were.
  examples_set_ids :
      (P.uids w).effective ≡ 0
      → (let (r, v) = current_uid L w in (r ≡ ret (ok tt)) × (L.getuid v ≡ 1001))
        × (let (r, v) = current_gid L w in (r ≡ ret (ok tt)) × (L.getgid v ≡ 1001))
        × (let (r, v) = effective_uid L w in (r ≡ ret (ok tt)) × (L.geteuid v ≡ 1001))
        × (let (r, v) = effective_gid L w in (r ≡ ret (ok tt)) × (L.getegid v ≡ 1001))
        × (let (r, v) = both_uid L w in
            (r ≡ ret (ok tt)) × (L.getuid v ≡ 1001) × (L.geteuid v ≡ 1001))
        × (let (r, v) = both_gid L w in
            (r ≡ ret (ok tt))
            × (L.getgid v ≡ 1001)
            × (L.getegid v ≡ 1001)
            × (L.getuid v ≡ L.getuid w))
        × (let (_, v) = guard L w in
            (L.geteuid v ≡ 1001)
            × (L.getegid v ≡ 1001)
            × (L.getuid v ≡ L.getuid w)
            × (L.getgid v ≡ L.getgid w))
  unfolding current_uid current_gid effective_uid effective_gid both_uid both_gid guard
  examples_set_ids root =
      let (uid, gid, euid, egid, both, both') = setters_lem L 1001 1001 in
      let v1 = (set_current_uid L 1001 w).1 in
      let v2 = (set_effective_uid L 1001 w).1 in
      let v3 = (set_effective_gid L 1001 w).1 in
      let v4 = (set_both_uid L 1001 1001 w).1 in
      let v6 = (set_current_gid L 1001 w).1 in
      let v7 = (set_both_gid L 1001 1001 w).1 in
      let v5 = (switch_user_group L 1001 1001 w).1 in
      let (_, (users, groups)) =
        switch_user_group_switches L P 1001 1001 w (ground arith) (ground arith) in
      (
        ground (arith, uid w, I.setuid_allowed 1001 w, P.getuid_lem v1),
        ground (arith, gid w, I.setgid_allowed 1001 w, P.getgid_lem v6),
        ground (arith, euid w, P.seteuid_allowed 1001 w, P.geteuid_lem v2),
        ground (arith, egid w, P.setegid_allowed 1001 w, P.getegid_lem v3),
        ground (arith, both w, I.setreuid_allowed 1001 1001 w, P.getuid_lem v4, P.geteuid_lem v4),
        ground (
          arith,
          both' w,
          I.setregid_allowed 1001 1001 w,
          P.getgid_lem v7,
          P.getegid_lem v7,
          P.getuid_lem v7,
          P.getuid_lem w,
        ),
        ground (
          arith,
          users,
          groups,
          P.geteuid_lem v5,
          P.getegid_lem v5,
          P.getuid_lem v5,
          P.getgid_lem v5,
          P.getuid_lem w,
          P.getgid_lem w,
        ),
      )
