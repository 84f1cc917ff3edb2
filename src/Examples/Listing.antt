-- ===== src/Examples/Listing.antt =====
-- examples/list.rs: all users, sorted by their IDs.
use mathlib.Core.List.{foldl, append-nil, append_assoc, Perm}
use rust_users.Prelude.{ℕ, ◌<◌, ◌≡◌, refl, ◌∙◌, List, [], ◌∷◌, ◌++◌, map, length, arith, nat_eq}
use rust_users.Std.Exec.{Exec, ret, bind, os, ◌>>=◌}
use rust_users.Std.Sort.{sort_by, IsAscending, sort_by-IsAscending, sort_by-perm}
use rust_users.Libc.{Libc}
use rust_users.Libc.Enumeration.{Enumeration}
use rust_users.Base.Types.{User, user_id, user_name_of}
use rust_users.Base.AllUsers.{for_users}
use rust_users.Base.AllUsers.Loop.{AreEntriesOf, for_users_lem}
use rust_users.Examples.Output.{Line, user_has_name, print_all, print_all_lem}

abbrev pub line : User → Line
unfolding user_id user_name_of
line user = user_has_name (user_id user) (user_name_of user)

module _ (L : Libc) where
  abbrev push : User → Exec (List User × L.World) (Unit {0})
  push user (users, w) = (ret tt, (users ++ user ∷ [], w))

  -- `unsafe { all_users() }.collect()`, for a system with fewer users than the fuel.
  abbrev collect : ℕ → Exec L.World (List User)
  collect fuel w =
      let (r, (users, w')) = for_users L push fuel ([], w) in (bind r λ _. ret users, w')

  unfoldable pub main : ℕ → Exec (List Line × L.World) (Unit {0})
  unfolding line
  main fuel = do users ← os (collect fuel); print_all line (sort_by user_id users)

foldl-append : (us vs : List User) → foldl (λ xs u. xs ++ u ∷ []) vs us ≡ vs ++ us
foldl-append [] vs = ground (arith, append-nil vs)
foldl-append (u ∷ us) vs = foldl-append us (vs ++ u ∷ []) ∙ append_assoc vs (u ∷ []) us

module _ (L : Libc) (N : Enumeration L) where
  -- For a database whose entries are those of given users, with more fuel than users: the program
  -- ends, and prints one line for each user, in an order in which the IDs do not fall.
  pub list_prints :
      (us : List User) (fuel : ℕ) (w : L.World)
      → AreEntriesOf (N.entries w) us
      → length us < fuel
      → (sorted : List User) × Perm sorted us
        × IsAscending user_id sorted
        × (let (r, (out, _)) = main L fuel ([], w) in (r ≡ ret tt) × (out ≡ map line sorted))
  unfolding main
  list_prints us fuel w h k =
      let (ended, folded, _) =
        for_users_lem L N (λ xs u. xs ++ u ∷ []) (push L) (λ t. Unit) (λ u t v i. (refl, tt)) us
          fuel [] w h k tt in
      let w' = (for_users L (push L) fuel ([], w)).1.1 in
      let sorted = sort_by user_id us in
      (
        sorted,
        sort_by-perm user_id us,
        sort_by-IsAscending user_id us,
        ground (arith, ended, folded, foldl-append us [], print_all_lem line sorted [] w'),
      )
