-- ===== src/Base/AllUsers/Loop.antt =====
-- What a `for` loop over all users does, by induction on the entries that are left.
use mathlib.Core.List.{foldl}
use rust_users.Prelude.{ℕ, zero, suc, ◌<◌, ◌≡◌, refl, List, [], ◌∷◌, length, arith}
use rust_users.Std.Exec.{Exec, ret}
use rust_users.Libc.{Libc, Passwd}
use rust_users.Libc.Enumeration.{Enumeration}
use rust_users.Base.Types.{User}
use rust_users.Base.Raw.Strings.{IsPasswdOf, passwd_to_user_lem}
use rust_users.Base.AllUsers.{all_users, next, iterate, for_users}

-- The entries are those of the users, one by one.
abbrev pub AreEntriesOf : List Passwd → List User → Type 0
AreEntriesOf [] [] = Unit
AreEntriesOf [] (u ∷ us) = ⊥
AreEntriesOf (p ∷ ps) [] = ⊥
AreEntriesOf (p ∷ ps) (u ∷ us) = IsPasswdOf p u × AreEntriesOf ps us

module _ (L : Libc) (N : Enumeration L) {T : Type 0} (step : T → User → T)
    (body : User → Exec (T × L.World) (Unit {0})) (P : T → Type 0)
    (runs : (u : User) (t : T) (w : L.World)
      → P t
      → (body u (t, w) ≡ (ret tt, (step t u, w))) × P (step t u)) where
  iterate_lem :
      (ps : List Passwd) (us : List User) (fuel : ℕ) (t : T) (w : L.World)
      → N.left w ≡ ps
      → AreEntriesOf ps us
      → length us < fuel
      → P t
      → let (r, (t', _)) = iterate L body fuel (t, w) in (r ≡ ret tt) × (t' ≡ foldl step t us)
  unfolding iterate next
  iterate_lem ps us zero t w e h k i = absurd (omega arith)
  iterate_lem [] [] (suc fuel) t w e h k i = ground (arith, N.getpwent_ends w e)
  iterate_lem [] (u ∷ us) (suc fuel) t w e h k i = absurd h
  iterate_lem (p ∷ ps) [] (suc fuel) t w e h k i = absurd h
  iterate_lem (p ∷ ps) (u ∷ us) (suc fuel) t w e h k i = ground (
    arith,
    N.getpwent_reads w p ps e,
    passwd_to_user_lem p u h.0,
    (runs u t (L.getpwent w).1 i),
    iterate_lem ps us fuel (step t u) (L.getpwent w).1,
  )

  -- For a database whose entries are those of given users, and a body that returns, leaves the
  -- world as it is and keeps an invariant: with more fuel than users the loop ends, its body has
  -- run on each of the users in the order of the entries, and at last `endpwent` was called.
  pub for_users_lem :
      (us : List User) (fuel : ℕ) (t : T) (w : L.World)
      → AreEntriesOf (N.entries w) us
      → length us < fuel
      → P t
      → let (r, (t', w')) = for_users L body fuel (t, w) in
        (r ≡ ret tt) × (t' ≡ foldl step t us) × ((v : L.World) × (w' ≡ L.endpwent v))
  unfolding for_users all_users
  for_users_lem us fuel t w h k i =
      let v = L.setpwent w in
      let (ended, folded) = iterate_lem (N.entries w) us fuel t v (N.setpwent_rewinds w) h k i in
      (ended, folded, ((iterate L body fuel (t, v)).1.1, refl))
