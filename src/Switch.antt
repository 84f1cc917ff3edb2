-- ===== src/Switch.antt =====
-- switch.rs: setting the IDs of the process, and the guard that sets them back.
pub mod Guard
pub mod Refused
pub mod Setters
pub mod Nested
pub mod GiveUp
use rust_users.Prelude.{ℕ, zero, suc}
use rust_users.Prelude.Int.{ℤ, pos, negsuc}
use rust_users.Std.Exec.{
  Exec, Fault, unreachable, failed_to_set_effective_gid, failed_to_set_effective_uid, IoResult, ok,
  err, pure, throw, call, gets, guarding, ◌>>=◌, ◌>>◌,
}
use rust_users.Libc.{Libc}
use rust_users.Base.Process.{get_effective_uid, get_effective_gid}

-- `SwitchUserGuard`: the effective IDs to go back to.
pub record SwitchUserGuard : Type 0 where
  pub uid : ℕ
  pub gid : ℕ

module _ (L : Libc) where
  -- The `match` on the `c_int` of each call: 0, -1, and any other value.
  pub check : ℤ → Exec L.World (IoResult (Unit {0}))
  check (pos zero) = pure (ok tt)
  check (negsuc zero) = do errno ← gets L.errno; pure (err errno)
  check (pos (suc n)) = throw (unreachable (pos (suc n)))
  check (negsuc (suc n)) = throw (unreachable (negsuc (suc n)))

  pub set_current_uid : ℕ → Exec L.World (IoResult (Unit {0}))
  unfolding check
  set_current_uid uid = do r ← call (L.setuid uid); check r

  pub set_current_gid : ℕ → Exec L.World (IoResult (Unit {0}))
  unfolding check
  set_current_gid gid = do r ← call (L.setgid gid); check r

  pub set_effective_uid : ℕ → Exec L.World (IoResult (Unit {0}))
  unfolding check
  set_effective_uid uid = do r ← call (L.seteuid uid); check r

  pub set_effective_gid : ℕ → Exec L.World (IoResult (Unit {0}))
  unfolding check
  set_effective_gid gid = do r ← call (L.setegid gid); check r

  pub set_both_uid : ℕ → ℕ → Exec L.World (IoResult (Unit {0}))
  unfolding check
  set_both_uid ruid euid = do r ← call (L.setreuid ruid euid); check r

  pub set_both_gid : ℕ → ℕ → Exec L.World (IoResult (Unit {0}))
  unfolding check
  set_both_gid rgid egid = do r ← call (L.setregid rgid egid); check r

  -- `result.expect(message)`
  abbrev pub expect : Fault → IoResult (Unit {0}) → Exec L.World (Unit {0})
  expect message (ok _) = pure tt
  expect message (err _) = throw message

  -- `<SwitchUserGuard as Drop>::drop`
  pub drop_guard : SwitchUserGuard → Exec L.World (Unit {0})
  unfolding set_effective_gid set_effective_uid
  drop_guard guard = do
    group ← set_effective_gid guard.gid
    expect failed_to_set_effective_gid group
    user ← set_effective_uid guard.uid
    expect failed_to_set_effective_uid user

  -- The rest of `switch_user_group`, while `current_state` is alive. `?` returns an `Err` early.
  pub switch_to : ℕ → ℕ → SwitchUserGuard → Exec L.World (IoResult SwitchUserGuard)
  unfolding set_effective_gid set_effective_uid
  switch_to uid gid current_state = do
    group ← set_effective_gid gid
    elim group [
      | err e ↦ pure (err e)
      | ok _ ↦ do
        user ← set_effective_uid uid
        elim user [ err e ↦ pure (err e) | ok _ ↦ pure (ok current_state) ]
    ]

  pub switch_user_group : ℕ → ℕ → Exec L.World (IoResult SwitchUserGuard)
  unfolding get_effective_gid get_effective_uid
  switch_user_group uid gid = do
    old_gid ← get_effective_gid L
    old_uid ← get_effective_uid L
    let current_state : SwitchUserGuard = record { gid = old_gid; uid = old_uid }
    guarding (switch_to uid gid current_state) (drop_guard current_state)
