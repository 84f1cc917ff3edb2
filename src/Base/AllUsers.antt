-- ===== src/Base/AllUsers.antt =====
-- base.rs: `AllUsers`, the iterator over every user, and a `for` loop over it.
pub mod Loop
pub mod Shared
use rust_users.Prelude.{ℕ, zero, suc, Option, none, some}
use rust_users.Std.Exec.{Exec, diverges, pure, lift, call, modify, os, finally, ◌>>=◌, ◌>>◌}
use rust_users.Libc.{Libc}
use rust_users.Base.Types.{User}
use rust_users.Base.Raw.{passwd_to_user}

module _ (L : Libc) where
  -- `all_users`; the iterator itself is empty, its position is part of the world.
  unfoldable pub all_users : Exec L.World (Unit {0})
  all_users = modify L.setpwent

  -- `AllUsers::next`
  unfoldable pub next : Exec L.World (Option User)
  next = do
    result ← call L.getpwent
    elim result [ none ↦ pure none | some p ↦ do user ← lift (passwd_to_user p); pure (some user) ]

  -- `<AllUsers as Drop>::drop`
  unfoldable pub drop_users : Exec L.World (Unit {0})
  drop_users = modify L.endpwent

  module _ {T : Type 0} (body : User → Exec (T × L.World) (Unit {0})) where
    pub iterate : ℕ → Exec (T × L.World) (Unit {0})
    iterate zero = λ s. (diverges, s)
    iterate (suc fuel) = do
      item ← os next
      elim item [ none ↦ pure tt | some user ↦ do body user; iterate fuel ]

    -- `for user in all_users() { … }`. The iterator is dropped at the end, which is `endpwent`.
    pub for_users : ℕ → Exec (T × L.World) (Unit {0})
    for_users fuel = do os all_users; finally (iterate fuel) (λ (t, w). (t, L.endpwent w))
