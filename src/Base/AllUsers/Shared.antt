-- ===== src/Base/AllUsers/Shared.antt =====
-- Several iterators over all users at once. The documentation of `all_users` warns of it, since they
-- share the position of `getpwent`.
use rust_users.Prelude.{ℕ, ◌≡◌, refl, Option, none, some, List, [], ◌∷◌, arith}
use rust_users.Std.Exec.{Exec, ret, pure, ◌>>=◌, ◌>>◌}
use rust_users.Libc.{Libc, Passwd}
use rust_users.Libc.Enumeration.{Enumeration, OnePosition}
use rust_users.Base.Types.{User}
use rust_users.Base.Raw.Strings.{passwd_to_user_lem}
use rust_users.Base.AllUsers.{all_users, next, drop_users}
use rust_users.Base.AllUsers.Loop.{AreEntriesOf}

-- A call of `all_users`, of `next` on one of the iterators, or the end of one.
pub data Call : Type 0 where
  create : Call
  item : (iterator : ℕ) → Call
  drop : (iterator : ℕ) → Call

-- The items, each with the iterator that returned it.
unfoldable pub run : (L : Libc) → List Call → Exec L.World (List (ℕ × Option User))
run L [] = pure []
run L (create ∷ calls) = do all_users L; run L calls
run L (item iterator ∷ calls) = do
  found ← next L
  rest ← run L calls
  pure ((iterator, found) ∷ rest)
run L (drop iterator ∷ calls) = do drop_users L; run L calls

-- What they should be: there is one list of users that are left, whatever iterator asks.
unfoldable pub shared : List User → List User → List Call → List (ℕ × Option User)
shared all left [] = []
shared all left (create ∷ calls) = shared all all calls
shared all [] (item iterator ∷ calls) = (iterator, none) ∷ shared all [] calls
shared all (u ∷ left) (item iterator ∷ calls) = (iterator, some u) ∷ shared all left calls
shared all left (drop iterator ∷ calls) = shared all all calls

module _ (L : Libc) (N : Enumeration L) (O : OnePosition L N) (all : List User) where
  -- For a database whose entries are those of given users, and whose entries behind the position are
  -- those of the users that are left: any calls on any number of iterators return what they would
  -- return with one list of users left that all of them share. So `next` of one skips the user for
  -- the others, and to create or to drop one restarts them all.
  pub iterators_share :
      (calls : List Call) (left : List User) (w : L.World)
      → AreEntriesOf (N.entries w) all
      → AreEntriesOf (N.left w) left
      → (run L calls w).0 ≡ ret (shared all left calls)
  unfolding run shared all_users next drop_users
  iterators_share [] left w h k = refl
  iterators_share (create ∷ calls) left w h k =
      iterators_share calls all (L.setpwent w) (rw (O.setpwent_keeps w) h)
        (rw (N.setpwent_rewinds w) h)
  iterators_share (drop iterator ∷ calls) left w h k =
      iterators_share calls all (L.endpwent w) (rw (O.endpwent_keeps w) h)
        (rw (O.endpwent_rewinds w) h)
  iterators_share (item iterator ∷ calls) left w h k =
      let v = (L.getpwent w).1 in
      let h' : AreEntriesOf (N.entries v) all = rw (O.getpwent_keeps w) h in
      step left (N.left w) refl k (λ us k'. iterators_share calls us v h' k')
    where
      step :
          (us : List User) (ps : List Passwd)
          → N.left w ≡ ps
          → AreEntriesOf ps us
          → ((vs : List User)
              → AreEntriesOf (N.left (L.getpwent w).1) vs
              → (run L calls (L.getpwent w).1).0 ≡ ret (shared all vs calls))
          → (run L (item iterator ∷ calls) w).0 ≡ ret (shared all us (item iterator ∷ calls))
      step [] [] e k rest =
          ground (arith, N.getpwent_ends w e, rest [] (rw (O.getpwent_stays w e) tt))
      step (u ∷ us) (p ∷ ps) e k rest =
          let (read, behind) = N.getpwent_reads w p ps e in
          ground (arith, read, passwd_to_user_lem p u k.0, rest us (rw behind k.1))
      step [] (p ∷ ps) e k rest = absurd k
      step (u ∷ us) [] e k rest = absurd k
