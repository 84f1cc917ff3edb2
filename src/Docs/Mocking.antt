-- ===== src/Docs/Mocking.antt =====
-- mock.rs: the examples of the module. The second runs one function of the trait `Users` on a mock
-- and on a cache.
use mathlib.Core.Option
use rust_users.Prelude.{ℕ, ◌≡◌, some, List, [], ◌∷◌, ◌++◌, codes, arith, nat_eq, bytes_eq}
use rust_users.Std.Exec.{Exec, ret, os, ◌>>=◌, ◌>>◌}
use rust_users.Std.HashMap.{HashMap, get, insert}
use rust_users.Libc.{Libc}
use rust_users.Base.Types.{User, new_user, new_group, with_home_dir}
use rust_users.Base.Directory.{Directory}
use rust_users.Cache.{UsersCache, new}
use rust_users.Cache.Answers.{IsUnique}
use rust_users.Cache.Answers.Methods.{get_current_username-Gives}
use rust_users.Cache.Answers.Refines.{new-IsTrue}
use rust_users.Mock.{MockUsers, with_current_uid, add_user, add_group}
use rust_users.Mock
use rust_users.Traits.{Users}
use rust_users.Traits.Instances.{cache_users, mock_users}
use rust_users.Docs.Output.{Line, print}

-- The first example, which makes a mock.
bobbins_mock : MockUsers
bobbins_mock =
    let users = with_current_uid 1000 in
    let bobbins = with_home_dir (codes "/home/bobbins") (new_user 1000 (codes "Bobbins") 1000) in
    let users' = (add_user bobbins users).1 in
    (add_group (new_group 100 (codes "funkyppl")) users').1

print_current_username : {S : Type 0} → Users S → Exec (List Line × S) (Unit {0})
print_current_username users = do
  name ← os users.get_current_username
  print (Line.current_user name)

-- A part of a program that works on a mock of its own, and one that works on a cache of its own.
abbrev on_mock :
    {W : Type 0}
    → MockUsers
    → Exec (List Line × MockUsers) (Unit {0})
    → Exec (List Line × W) (Unit {0})
on_mock m part (out, w) = let (r, (out', _)) = part (out, m) in (r, (out', w))

abbrev on_cache :
    {W : Type 0}
    → UsersCache
    → Exec (List Line × (UsersCache × W)) (Unit {0})
    → Exec (List Line × W) (Unit {0})
on_cache c part (out, w) = let (r, (out', (_, w'))) = part (out, (c, w)) in (r, (out', w'))

module _ (L : Libc) (values : HashMap ℕ User → List User) where
  pub two_users : Exec (List Line × L.World) (Unit {0})
  unfolding print_current_username
  two_users = do
    on_mock (add_user (new_user 1001 (codes "fred") 101) (with_current_uid 1001)).1
        (print_current_username (mock_users values))
    on_cache new (print_current_username (cache_users L))

  -- Over a directory that holds still, with unique IDs, the function of the trait prints fred for
  -- the mock, and for the cache the name that the directory has for the real user ID, or none.
  pub two_users_print :
      (out : List Line) (w : L.World) (D : Directory L w)
      → IsUnique L w D
      → two_users (out, w) ≡ (
        ret tt,
        (
          (out ++ Line.current_user (some (codes "fred")) ∷ [])
              ++ Line.current_user
                  (Option.map (λ (u : User). u.name_arc) (D.user_by_uid (L.getuid w)))
                ∷ [],
          w,
        ),
      )
  unfolding two_users print_current_username Mock.get_current_username with_current_uid add_user
      new_user get insert
  two_users_print out w D Q =
      let (r, same, _) = get_current_username-Gives L w D Q new (new-IsTrue L w D Q) in
      ground (arith, r, same)
