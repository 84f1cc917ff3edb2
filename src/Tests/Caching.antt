-- ===== src/Tests/Caching.antt =====
-- cache.rs and the iterator over all users, on the small system.
use rust_users.Prelude.{
  ℕ, ◌≡◌, ◌⊎◌, refl, Option, none, some, List, [], ◌∷◌, map, codes, arith, nat_eq, bytes_eq, ◌==◌,
  if◌then◌else◌,
}
use rust_users.Std.Exec.{Exec, ret, pure}
use rust_users.Std.Ffi.{OsString}
use rust_users.Std.HashMap.{get, insert}
use rust_users.Base.Types.{User}
use rust_users.Cache.{new}
use rust_users.Cache.BiMap.{BiMap, empty, by_key, by_name}
use rust_users.Cache.BiMap.Calls
use rust_users.Cache.BiMap.Calls.{Lookup, look_up_all}
use rust_users.Cache.BiMap.Stable.{answer_after, answers_stay}
use rust_users.Cache.BiMap.Closed.{IsClosed, Grows, cached_name, empty-IsClosed, lookups_safe}
use rust_users.Cache.BiMap.Cross.{two_names_one_key}
use rust_users.Cache.Answers.{
  Call, run, answer, IsTrue, user_by_uid, user_by_name, current_username, group_by_name,
}
use rust_users.Cache.Answers.Refines.{run_refines}
use rust_users.Tests.System.{Machine, toy, as_root, as_fred}
use rust_users.Tests.Readable.{user_of, fred, toy_directory}
use rust_users.Tests.Unique.{toy_unique}

abbrev calls : List Call
calls =
    user_by_name (codes "fred")
    ∷ user_by_uid 1337
    ∷ current_username
    ∷ group_by_name (codes "none")
    ∷ []

run_refines_example :
    let (r, (c, w')) = run toy calls (new, as_fred) in
    (r ≡ ret (map (answer toy as_fred (toy_directory as_fred)) calls))
    × (w' ≡ as_fred)
    × IsTrue toy as_fred (toy_directory as_fred) (toy_unique as_fred) c
run_refines_example = run_refines toy as_fred (toy_directory as_fred) (toy_unique as_fred) calls

-- A fetch that knows one user by two names.
abbrev jim : User
jim = user_of (codes "jim") 1337

abbrev no_users : BiMap ℕ User
no_users = empty

abbrev name_of : User → OsString
name_of u = u.name_arc

abbrev uid_of : User → ℕ
uid_of u = u.uid

abbrev key_fetch : ℕ → Exec Machine (Option User)
key_fetch uid = pure (if uid == 1337 then some fred else none)

abbrev name_fetch : OsString → Exec Machine (Option User)
name_fetch name =
    pure
      (if name == codes "fred" then some fred else if name == codes "jim" then some jim else none)

lookups_safe_example :
    (let (result, (m', _)) = by_key name_of key_fetch 1337 (no_users, as_root) in
      IsClosed m'
      × Grows no_users m'
      × ((result ≡ (key_fetch 1337 as_root).0)
          ⊎ ((r : Option User) × (get 1337 no_users.forward.value ≡ some r) × (result ≡ ret r))))
    × (let (result, (m', _)) = by_name uid_of name_fetch (codes "jim") (no_users, as_root) in
        IsClosed m'
        × Grows no_users m'
        × ((result ≡ (name_fetch (codes "jim") as_root).0)
            ⊎ ((r : Option User) × (cached_name (codes "jim") no_users ≡ some r)
                × (result ≡ ret r))))
lookups_safe_example =
    lookups_safe name_of uid_of key_fetch name_fetch 1337 (codes "jim") no_users as_root
      empty-IsClosed

-- Fred is cached, and then looked up as jim, a name that the system has for the same ID.
abbrev one_user : BiMap ℕ User
one_user = (by_key name_of key_fetch 1337 (no_users, as_root)).1.0

abbrev as_jim : List (Lookup ℕ)
as_jim = Calls.at_name (codes "jim") ∷ Calls.at_key 1337 ∷ []

answers_stay_example :
    let s = (look_up_all name_of uid_of key_fetch name_fetch as_jim (one_user, as_root)).1 in
    by_key name_of key_fetch 1337 s ≡ (
      ret (
          answer_after name_of uid_of key_fetch name_fetch 1337 as_jim
            (one_user, as_root)
            (some fred)),
      s,
    )
unfolding by_key get insert nat_eq
answers_stay_example =
    answers_stay name_of uid_of key_fetch name_fetch 1337 as_jim one_user as_root (some fred)
      (lookups_safe name_of uid_of key_fetch name_fetch 1337 [] no_users as_root empty-IsClosed).0.0
      refl

two_names_one_key_example :
    let s = (by_name uid_of name_fetch (codes "fred") (no_users, as_root)).1 in
    let t = (by_name uid_of name_fetch (codes "jim") s).1 in
    by_name uid_of name_fetch (codes "fred") t ≡ (ret (some jim), t)
unfolding by_name get insert
two_names_one_key_example =
    two_names_one_key name_of uid_of key_fetch name_fetch (codes "fred") (codes "jim") no_users
      as_root fred jim empty-IsClosed (ground arith) refl (ground arith) (ground arith)
      (ground arith) (ground arith)
