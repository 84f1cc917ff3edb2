-- ===== src/Libc/Identity.antt =====
-- What the Linux manual pages of `setuid`, `setgid`, `setreuid` and `setregid` promise, as
-- hypotheses.
use rust_users.Prelude.{ℕ, ◌<◌, ◌≡◌, Bool, true, false, ◌&&◌, ◌||◌, ◌==◌, nat_eq, if◌then◌else◌}
use rust_users.Prelude.Int.{ℤ, pos, negsuc}
use rust_users.Libc.{Libc}
use rust_users.Libc.Posix.{Ids, Posix, no_id}

abbrev pub all_of : ℕ → Ids
all_of id = record { real = id; effective = id; saved = id }

abbrev is_privileged : Ids → Bool
is_privileged users = users.effective == 0

-- What `setuid` or `setgid` lets a process without privileges take, and what it makes of the IDs.
abbrev pub may_set : ℕ → Ids → Ids → Bool
may_set id ids users = is_privileged users || id == ids.real || id == ids.saved

abbrev pub ids_set : ℕ → Ids → Ids → Ids
ids_set id ids users = if is_privileged users then all_of id else (record ids { effective = id })

-- The same of `setreuid` and `setregid`, which take `(uid_t) -1` for "leave as it is".
abbrev pub may_set_both : ℕ → ℕ → Ids → Ids → Bool
may_set_both real effective ids users =
    is_privileged users
    || ((real == no_id || real == ids.real || real == ids.effective)
        && (effective == no_id
            || effective == ids.real
            || effective == ids.effective
            || effective == ids.saved))

abbrev chosen : ℕ → ℕ → ℕ
chosen id old = if id == no_id then old else id

-- The saved ID becomes the new effective one if the real ID is set, or if the effective ID is set to
-- another than the real one of before.
abbrev pub ids_set_both : ℕ → ℕ → Ids → Ids
ids_set_both real effective ids = record {
  real = chosen real ids.real;
  effective = chosen effective ids.effective;
  saved =
      if real == no_id && (effective == no_id || effective == ids.real)
      then ids.saved
      else chosen effective ids.effective;
}

-- The answer of a call that was permitted, or refused, and the user and group IDs then.
abbrev pub Gives : {L : Libc} → Posix L → ℤ × L.World → ℤ → Ids → Ids → Type 0
Gives P (r, w) answer users groups = (r ≡ answer) × (P.uids w ≡ users) × (P.gids w ≡ groups)

pub record Identity (L : Libc) (P : Posix L) : Type 0 where
  pub setuid_allowed :
      (id : ℕ) (w : L.World)
      → id < no_id
      → may_set id (P.uids w) (P.uids w) ≡ true
      → Gives P (L.setuid id w) (pos 0) (ids_set id (P.uids w) (P.uids w)) (P.gids w)
  pub setuid_refused :
      (id : ℕ) (w : L.World)
      → may_set id (P.uids w) (P.uids w) ≡ false
      → Gives P (L.setuid id w) (negsuc 0) (P.uids w) (P.gids w)
  pub setgid_allowed :
      (id : ℕ) (w : L.World)
      → id < no_id
      → may_set id (P.gids w) (P.uids w) ≡ true
      → Gives P (L.setgid id w) (pos 0) (P.uids w) (ids_set id (P.gids w) (P.uids w))
  pub setgid_keeps_users : (id : ℕ) (w : L.World) → P.uids (L.setgid id w).1 ≡ P.uids w
  pub setreuid_allowed :
      (real effective : ℕ) (w : L.World)
      → may_set_both real effective (P.uids w) (P.uids w) ≡ true
      → Gives P
          (L.setreuid real effective w)
          (pos 0)
          (ids_set_both real effective (P.uids w))
          (P.gids w)
  pub setreuid_refused :
      (real effective : ℕ) (w : L.World)
      → may_set_both real effective (P.uids w) (P.uids w) ≡ false
      → Gives P (L.setreuid real effective w) (negsuc 0) (P.uids w) (P.gids w)
  pub setregid_allowed :
      (real effective : ℕ) (w : L.World)
      → may_set_both real effective (P.gids w) (P.uids w) ≡ true
      → Gives P
          (L.setregid real effective w)
          (pos 0)
          (P.uids w)
          (ids_set_both real effective (P.gids w))
  pub setregid_keeps_users :
      (real effective : ℕ) (w : L.World) → P.uids (L.setregid real effective w).1 ≡ P.uids w
