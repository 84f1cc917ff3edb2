-- ===== src/Switch/Guard.antt =====
-- `switch_user_group` and the guard that it returns, on a system that keeps to the manual.
use rust_users.Prelude.{ℕ, ◌≡◌, refl, true, nat_eq, arith}
use rust_users.Std.Exec.{ret, ok}
use rust_users.Libc.{Libc}
use rust_users.Libc.Posix.{Posix, Ids, may}
use rust_users.Switch.{SwitchUserGuard, drop_guard, switch_to, switch_user_group}

abbrev pub guard_at : {L : Libc} → Posix L → L.World → SwitchUserGuard
guard_at P w = record { uid = (P.uids w).effective; gid = (P.gids w).effective }

-- The world has these IDs.
abbrev pub HasIds : {L : Libc} → Posix L → Ids → Ids → L.World → Type 0
HasIds P users groups w = (P.uids w ≡ users) × (P.gids w ≡ groups)

module _ (L : Libc) (P : Posix L) where
  -- The worlds after the calls of `switch_user_group`, or of the guard's destructor.
  abbrev after : ℕ → ℕ → L.World → L.World
  after uid gid w = (L.seteuid uid (L.setegid gid w).1).1

  -- The group is set first, then the user.
  module _ (uid gid : ℕ) (w : L.World) where
    after-HasIds :
        may gid (P.gids w) (P.uids w) ≡ true
        → may uid (P.uids w) (P.uids w) ≡ true
        → HasIds P
            (record (P.uids w) { effective = uid })
            (record (P.gids w) { effective = gid })
            (after uid gid w)
    after-HasIds g u =
        let w1 = (L.setegid gid w).1 in
        let (_, gids, uids) = P.setegid_allowed gid w g in
        let (_, uids', gids') = P.seteuid_allowed uid w1 (rw uids u) in (ground arith, ground arith)

    drop_guard_runs :
        may gid (P.gids w) (P.uids w) ≡ true
        → may uid (P.uids w) (P.uids w) ≡ true
        → drop_guard L (record { uid = uid; gid = gid }) w ≡ (ret tt, after uid gid w)
    unfolding drop_guard
    drop_guard_runs g u =
        let w1 = (L.setegid gid w).1 in
        let (done, _, uids) = P.setegid_allowed gid w g in
        let (done', _, _) = P.seteuid_allowed uid w1 (rw uids u) in ground arith

  pub drop_guard_ends :
      (guard : SwitchUserGuard) (w : L.World)
      → may guard.gid (P.gids w) (P.uids w) ≡ true
      → may guard.uid (P.uids w) (P.uids w) ≡ true
      → let (r, w') = drop_guard L guard w in
        (r ≡ ret tt)
        × HasIds P
            (record (P.uids w) { effective = guard.uid })
            (record (P.gids w) { effective = guard.gid })
            w'
  drop_guard_ends guard w g u =
      rw (drop_guard_runs guard.uid guard.gid w g u) (refl, after-HasIds guard.uid guard.gid w g u)

  module _ (uid gid : ℕ) (w : L.World) where
    -- If the process may set both IDs, both become effective, the real and saved ones stay, and the
    -- call returns a guard with the effective IDs of before.
    pub switch_user_group_switches :
        may gid (P.gids w) (P.uids w) ≡ true
        → may uid (P.uids w) (P.uids w) ≡ true
        → let (r, w') = switch_user_group L uid gid w in
          (r ≡ ret (ok (guard_at P w)))
          × HasIds P
              (record (P.uids w) { effective = uid })
              (record (P.gids w) { effective = gid })
              w'
    unfolding switch_user_group
    switch_user_group_switches g u =
        let w1 = (L.setegid gid w).1 in
        let (done, _, uids) = P.setegid_allowed gid w g in
        let (done', _, _) = P.seteuid_allowed uid w1 (rw uids u) in
        unfold switch_to in
        ground (arith, P.geteuid_lem w, P.getegid_lem w, after-HasIds uid gid w g u)

    -- If the process may set both IDs, and with them in effect may set each of the old ones, then
    -- dropping the guard succeeds and brings back all user and group IDs of before.
    pub drop_guard_restores :
        may gid (P.gids w) (P.uids w) ≡ true
        → may uid (P.uids w) (P.uids w) ≡ true
        → may
            (P.gids w).effective
            (record (P.gids w) { effective = gid })
            (record (P.uids w) { effective = uid })
          ≡ true
        → may
            (P.uids w).effective
            (record (P.uids w) { effective = uid })
            (record (P.uids w) { effective = uid })
          ≡ true
        → let (dropped, w') = drop_guard L (guard_at P w) (switch_user_group L uid gid w).1 in
          (dropped ≡ ret tt) × HasIds P (P.uids w) (P.gids w) w'
    drop_guard_restores g u g' u' =
        let w1 = (switch_user_group L uid gid w).1 in
        let (_, (users, groups)) = switch_user_group_switches g u in
        let back = drop_guard_ends (guard_at P w) w1 (rw (users, groups) g') (rw users u') in
        ground (arith, back, users, groups)
