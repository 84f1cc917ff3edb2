-- ===== src/Examples/Switching.antt =====
-- examples/switching.rs: a program that switches to another user and back, and shows its IDs before,
-- meanwhile and after.
use rust_users.Prelude.{ℕ, ◌≡◌, true, arith}
use rust_users.Std.Exec.{Exec, ret, IoResult, ok, err, pure, ◌>>=◌, ◌>>◌}
use rust_users.Libc.{Libc}
use rust_users.Libc.Posix.{Posix, Ids, may}
use rust_users.Base.Process.{get_current_uid, get_current_gid, get_effective_uid, get_effective_gid}
use rust_users.Switch.{SwitchUserGuard, drop_guard, switch_user_group}
use rust_users.Switch.Guard.{guard_at, HasIds, switch_user_group_switches, drop_guard_restores}

abbrev sample_id : ℕ
sample_id = 502

-- The numbers of the two lines that `print_state` prints.
pub record State : Type 0 where
  pub uid : ℕ
  pub gid : ℕ
  pub euid : ℕ
  pub egid : ℕ

module _ (L : Libc) where
  print_state : Exec L.World State
  unfolding get_current_uid get_current_gid get_effective_uid get_effective_gid
  print_state = do
    uid ← get_current_uid L
    gid ← get_current_gid L
    euid ← get_effective_uid L
    egid ← get_effective_gid L
    pure (record { uid = uid; gid = gid; euid = euid; egid = egid })

  -- `drop(guard)`, of an `io::Result`
  abbrev drop_result : IoResult SwitchUserGuard → Exec L.World (Unit {0})
  drop_result (ok guard) = drop_guard L guard
  drop_result (err e) = pure tt

  -- `main`, which prints three states.
  pub main : Exec L.World (State × State × State)
  unfolding print_state
  main = do
    initial ← print_state
    guard ← switch_user_group L sample_id sample_id
    switched ← print_state
    drop_result guard
    back ← print_state
    pure (initial, switched, back)

-- What is shown of these IDs.
abbrev pub shown : Ids → Ids → State
shown users groups = record {
  uid = users.real;
  gid = groups.real;
  euid = users.effective;
  egid = groups.effective;
}

-- These IDs, with the sample ID as the effective one.
abbrev pub as_sample : Ids → Ids
as_sample ids = record ids { effective = sample_id }

module _ (L : Libc) (P : Posix L) where
  print_state_lem : (w : L.World) → print_state L w ≡ (ret (shown (P.uids w) (P.gids w)), w)
  unfolding print_state
  print_state_lem w =
      ground (arith, P.getuid_lem w, P.getgid_lem w, P.geteuid_lem w, P.getegid_lem w)

  -- A process that may take the sample ID as user and as group, and may then take its old IDs
  -- again, shows its own IDs, then the sample IDs as the effective ones, then its own IDs again,
  -- and has them all at the end.
  pub main_restores :
      (w : L.World)
      → may sample_id (P.gids w) (P.uids w) ≡ true
      → may sample_id (P.uids w) (P.uids w) ≡ true
      → may (P.gids w).effective (as_sample (P.gids w)) (as_sample (P.uids w)) ≡ true
      → may (P.uids w).effective (as_sample (P.uids w)) (as_sample (P.uids w)) ≡ true
      → let own = shown (P.uids w) (P.gids w) in
        let (r, w') = main L w in
        (r ≡ ret (own, shown (as_sample (P.uids w)) (as_sample (P.gids w)), own))
        × HasIds P (P.uids w) (P.gids w) w'
  unfolding main
  main_restores w g u g' u' =
      let w1 = (switch_user_group L sample_id sample_id w).1 in
      let w2 = (drop_guard L (guard_at P w) w1).1 in
      let (switched, (users, groups)) = switch_user_group_switches L P sample_id sample_id w g u in
      let (dropped, (users', groups')) = drop_guard_restores L P sample_id sample_id w g u g' u' in
      ground (
        arith,
        print_state_lem w,
        print_state_lem w1,
        print_state_lem w2,
        switched,
        users,
        groups,
        dropped,
        users',
        groups',
      )
