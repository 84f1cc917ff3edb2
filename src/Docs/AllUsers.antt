-- ===== src/Docs/AllUsers.antt =====
-- base.rs: the example of `all_users`.
use mathlib.Core.List.{foldl, append-nil, append_assoc}
use rust_users.Prelude.{ℕ, ◌<◌, ◌≡◌, refl, ◌∙◌, List, [], ◌∷◌, ◌++◌, map, length, arith}
use rust_users.Std.Exec.{Exec, ret}
use rust_users.Libc.{Libc}
use rust_users.Libc.Enumeration.{Enumeration}
use rust_users.Base.Types.{User, user_id, user_name_of}
use rust_users.Base.AllUsers.{for_users}
use rust_users.Base.AllUsers.Loop.{AreEntriesOf, for_users_lem}
use rust_users.Docs.Output.{Line, print}

abbrev line : User → Line
unfolding user_id user_name_of
line user = Line.user_listed (user_id user) (user_name_of user)

module _ (L : Libc) where
  abbrev print_user : User → Exec (List Line × L.World) (Unit {0})
  unfolding line
  print_user user = print (line user)

  -- For a system with fewer users than the fuel.
  list_users : ℕ → Exec (List Line × L.World) (Unit {0})
  unfolding print_user
  list_users fuel = for_users L print_user fuel

foldl-map :
    (us : List User) (out : List Line)
    → foldl (λ xs u. xs ++ line u ∷ []) out us ≡ out ++ map line us
unfolding line
foldl-map [] out = ground (arith, append-nil out)
foldl-map (u ∷ us) out =
    foldl-map us (out ++ line u ∷ []) ∙ append_assoc out (line u ∷ []) (map line us)

module _ (L : Libc) (N : Enumeration L) where
  -- For a database whose entries are those of given users, with more fuel than users: the example
  -- ends, and prints one line for each user, in the order of the database, after what was printed
  -- before.
  list_users_prints :
      (us : List User) (fuel : ℕ) (out : List Line) (w : L.World)
      → AreEntriesOf (N.entries w) us
      → length us < fuel
      → let (r, (out', _)) = list_users L fuel (out, w) in
        (r ≡ ret tt) × (out' ≡ out ++ map (λ u. Line.user_listed u.uid u.name_arc) us)
  unfolding list_users line user_id user_name_of print_user
  list_users_prints us fuel out w h k =
      let (ended, folded, _) =
        for_users_lem L N (λ xs u. xs ++ line u ∷ []) (print_user L) (λ t. Unit)
          (λ u t v i. (refl, tt)) us fuel out w h k tt in
      (ended, folded ∙ foldl-map us out)
