-- ===== src/Libc/Posix.antt =====
-- What the manual pages of `geteuid`, `seteuid`, `setegid` and the other calls on the IDs of a
-- process promise, as hypotheses.
use rust_users.Prelude.{ℕ, ◌≡◌, Bool, true, false, ◌&&◌, ◌||◌, ltb, ◌==◌, nat_eq}
use rust_users.Prelude.Int.{pos, negsuc}
use rust_users.Libc.{Libc}

-- The real, the effective and the saved ID, of users or of groups.
pub record Ids : Type 0 where
  pub real : ℕ
  pub effective : ℕ
  pub saved : ℕ

-- `(uid_t) -1`, which is no ID.
abbrev pub no_id : ℕ
no_id = 4294967295

-- Whether a process with the user IDs `users` may make `id` its effective user or group ID, which
-- are `ids`: a privileged process may take any that is an ID, others one that they have.
abbrev pub may : ℕ → Ids → Ids → Bool
may id ids users =
    (ltb id no_id && users.effective == 0)
    || id == ids.real
    || id == ids.effective
    || id == ids.saved

pub record Posix (L : Libc) : Type 0 where
  pub uids : L.World → Ids
  pub gids : L.World → Ids
  pub getuid_lem : (w : L.World) → L.getuid w ≡ (uids w).real
  pub getgid_lem : (w : L.World) → L.getgid w ≡ (gids w).real
  pub geteuid_lem : (w : L.World) → L.geteuid w ≡ (uids w).effective
  pub getegid_lem : (w : L.World) → L.getegid w ≡ (gids w).effective
  pub seteuid_allowed :
      (id : ℕ) (w : L.World)
      → may id (uids w) (uids w) ≡ true
      → let (r, w') = L.seteuid id w in
        (r ≡ pos 0) × (uids w' ≡ record (uids w) { effective = id }) × (gids w' ≡ gids w)
  pub seteuid_refused :
      (id : ℕ) (w : L.World)
      → may id (uids w) (uids w) ≡ false
      → let (r, w') = L.seteuid id w in (r ≡ negsuc 0) × (uids w' ≡ uids w) × (gids w' ≡ gids w)
  pub setegid_allowed :
      (id : ℕ) (w : L.World)
      → may id (gids w) (uids w) ≡ true
      → let (r, w') = L.setegid id w in
        (r ≡ pos 0) × (gids w' ≡ record (gids w) { effective = id }) × (uids w' ≡ uids w)
  pub setegid_refused :
      (id : ℕ) (w : L.World)
      → may id (gids w) (uids w) ≡ false
      → let (r, w') = L.setegid id w in (r ≡ negsuc 0) × (gids w' ≡ gids w) × (uids w' ≡ uids w)
