-- ===== src/Switch/Refused.antt =====
-- `switch_user_group` where the system refuses, and where the guard cannot set the IDs back.
use rust_users.Prelude.{ℕ, ◌<◌, ◌≡◌, ◌≢◌, refl, true, false, ◌||◌, ◌==◌, nat_eq, arith}
use rust_users.Std.Exec.{ret, stop, failed_to_set_effective_gid, err}
use rust_users.Libc.{Libc}
use rust_users.Libc.Posix.{Posix, may, no_id}
use rust_users.Switch.{SwitchUserGuard, drop_guard, switch_to, switch_user_group}
use rust_users.Switch.Guard.{guard_at, HasIds, drop_guard_ends, switch_user_group_switches}

module _ (L : Libc) (P : Posix L) (uid gid : ℕ) (w : L.World) where
  refused_switch :
      (e : ℕ) (v : L.World)
      → switch_to L uid gid (guard_at P w) w ≡ (ret (err e), v)
      → (drop_guard L (guard_at P w) v).0 ≡ ret tt
      → switch_user_group L uid gid w ≡ (ret (err e), (drop_guard L (guard_at P w) v).1)
  unfolding switch_user_group
  refused_switch e v p q = ground (arith, P.geteuid_lem w, P.getegid_lem w)

  switch_to_group_refused :
      may gid (P.gids w) (P.uids w) ≡ false
      → let w1 = (L.setegid gid w).1 in
        switch_to L uid gid (guard_at P w) w ≡ (ret (err (L.errno w1)), w1)
  unfolding switch_to
  switch_to_group_refused g = ground (arith, P.setegid_refused gid w g)

  switch_to_user_refused :
      may gid (P.gids w) (P.uids w) ≡ true
      → may uid (P.uids w) (P.uids w) ≡ false
      → let w2 = (L.seteuid uid (L.setegid gid w).1).1 in
        switch_to L uid gid (guard_at P w) w ≡ (ret (err (L.errno w2)), w2)
  unfolding switch_to
  switch_to_user_refused g u =
      let w1 = (L.setegid gid w).1 in
      let (done, _, users) = P.setegid_allowed gid w g in
      let (refused, _, _) = P.seteuid_refused uid w1 (rw users u) in ground arith

  -- If the process may not set the group, the call is an `Err` and every ID is as before.
  pub group_refused :
      may gid (P.gids w) (P.uids w) ≡ false
      → let (r, w') = switch_user_group L uid gid w in
        ((e : ℕ) × (r ≡ ret (err e))) × HasIds P (P.uids w) (P.gids w) w'
  group_refused g =
      let w1 = (L.setegid gid w).1 in
      let (_, groups, users) = P.setegid_refused gid w g in
      let (dropped, restored) =
        drop_guard_ends L P (guard_at P w) w1 (rw (groups, users) (ground arith))
          (rw users (ground arith)) in
      rw (refused_switch (L.errno w1) w1 (switch_to_group_refused g) dropped)
        ((L.errno w1, refl), (ground (arith, restored), ground (arith, restored)))

  -- If the process may set the group but not the user, and the old effective group is the real or
  -- the saved one, the call is an `Err` and every ID is as before.
  pub user_refused :
      may gid (P.gids w) (P.uids w) ≡ true
      → may uid (P.uids w) (P.uids w) ≡ false
      → ((P.gids w).effective == (P.gids w).real || (P.gids w).effective == (P.gids w).saved) ≡ true
      → let (r, w') = switch_user_group L uid gid w in
        ((e : ℕ) × (r ≡ ret (err e))) × HasIds P (P.uids w) (P.gids w) w'
  user_refused g u back =
      let w1 = (L.setegid gid w).1 in
      let w2 = (L.seteuid uid w1).1 in
      let (_, groups, users) = P.setegid_allowed gid w g in
      let (_, users', groups') = P.seteuid_refused uid w1 (rw users u) in
      let (dropped, restored) =
        drop_guard_ends L P (guard_at P w) w2 (rw (groups', groups, users', users) (ground arith))
          (rw (users', users) (ground arith)) in
      rw (refused_switch (L.errno w2) w2 (switch_to_user_refused g u) dropped)
        ((L.errno w2, refl), (ground (arith, restored), ground (arith, restored)))

  drop_guard_refused :
      (guard : SwitchUserGuard) (v : L.World)
      → may guard.gid (P.gids v) (P.uids v) ≡ false
      → let (r, v') = drop_guard L guard v in
        (r ≡ stop failed_to_set_effective_gid) × HasIds P (P.uids v) (P.gids v) v'
  unfolding drop_guard
  drop_guard_refused guard v g = ground (arith, P.setegid_refused guard.gid v g)

  -- If the effective user is 0 and the new one is not, neither new ID is 2 ^ 32 - 1 or more, and the
  -- effective group is neither the new, nor the real, nor the saved one, then dropping the guard
  -- panics at the group, and the effective IDs stay those that were switched to.
  pub guard_keeps_switched :
      (P.uids w).effective ≡ 0
      → uid ≢ 0
      → uid < no_id
      → gid < no_id
      → (P.gids w).effective ≢ gid
      → (P.gids w).effective ≢ (P.gids w).real
      → (P.gids w).effective ≢ (P.gids w).saved
      → let (_, w1) = switch_user_group L uid gid w in
        let (dropped, w2) = drop_guard L (guard_at P w) w1 in
        (dropped ≡ stop failed_to_set_effective_gid)
        × HasIds P
            (record (P.uids w) { effective = uid })
            (record (P.gids w) { effective = gid })
            w2
  guard_keeps_switched root user valid valid' ne ne' ne'' =
      let w1 = (switch_user_group L uid gid w).1 in
      let (_, (users, groups)) =
        switch_user_group_switches L P uid gid w (ground arith) (ground arith) in
      let (panics, stays) =
        drop_guard_refused (guard_at P w) w1 (rw (users, groups) (ground arith)) in
      (panics, (ground (arith, stays), ground (arith, stays)))
