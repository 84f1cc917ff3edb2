-- ===== src/Docs/Crate.antt =====
-- lib.rs: the three examples of the crate's documentation.
use rust_users.Prelude.{◌≡◌, Option, none, some, List, [], ◌∷◌, codes, arith, nat_eq, bytes_eq}
use rust_users.Std.Exec.{
  Exec, Outcome, Fault, ret, stop, expected, unwrapped_none, os, unwrap, expect, ◌>>=◌,
}
use rust_users.Libc.{Libc}
use rust_users.Base.Types.{User, Group, user_name_of, group_id, group_name_of}
use rust_users.Base.Directory.{Directory}
use rust_users.Base.Lookup
use rust_users.Base.Process
use rust_users.Cache
use rust_users.Cache.{UsersCache, new}
use rust_users.Cache.Answers.{IsUnique}
use rust_users.Cache.Answers.Methods.{get_group_by_name-Gives}
use rust_users.Cache.Answers.Refines.{new-IsTrue}
use rust_users.Examples.CurrentUser.{current_user_lem}
use rust_users.Docs.Output.{Line, print}

module _ (L : Libc) where
  pub hello : Exec (List Line × L.World) (Unit {0})
  hello = do
    uid ← os (Process.get_current_uid L)
    user ← os (Lookup.get_user_by_uid L uid)
    user ← unwrap user
    print (Line.hello (user_name_of user))

  pub hello_again : Exec (List Line × (UsersCache × L.World)) (Unit {0})
  hello_again = do
    uid ← os (Cache.get_current_uid L)
    user ← os (Cache.get_user_by_uid L uid)
    user ← unwrap user
    print (Line.hello_again (user_name_of user))

  admin_group : Exec (List Line × (UsersCache × L.World)) (Unit {0})
  admin_group = do
    group ← os (Cache.get_group_by_name L (codes "admin"))
    group ← expect "No such group 'admin'!" group
    print (Line.group_has_id (group_name_of group) (group_id group))

-- One line about what is found; without it the fault, and no output.
abbrev shows : {A : Type 0} → (A → Line) → Fault → Option A → Outcome (Unit {0}) × List Line
shows line fault none = (stop fault, [])
shows line fault (some a) = (ret tt, line a ∷ [])

module _ (L : Libc) (w : L.World) (D : Directory L w) (Q : IsUnique L w D) where
  -- Over a directory that holds still, with unique IDs, the first two examples greet the user of the
  -- real ID by name, the one without and the one with a cache, and panic on `unwrap` if there is no
  -- such user. The third shows the name and the ID of the group that is found as admin, and panics
  -- with its message if there is none. A program that panics has printed nothing.
  crate_examples_print :
      (let (r, (out, _)) = hello L ([], w) in
        (r, out)
        ≡ shows (λ (u : User). Line.hello u.name_arc) unwrapped_none (D.user_by_uid (L.getuid w)))
      × (let (r, (out, _)) = hello_again L ([], (new, w)) in
          (r, out)
          ≡ shows
              (λ (u : User). Line.hello_again u.name_arc)
              unwrapped_none
              (D.user_by_uid (L.getuid w)))
      × (let (r, (out, _)) = admin_group L ([], (new, w)) in
          (r, out)
          ≡ shows
              (λ (g : Group). Line.group_has_id g.name_arc g.gid)
              (expected "No such group 'admin'!")
              (D.group_by_name (codes "admin")))
  unfolding hello hello_again admin_group user_name_of group_id group_name_of
      Process.get_current_uid
  crate_examples_print =
      let (_, p, _, _, q) = current_user_lem L w D Q in
      let (r, _, _) = get_group_by_name-Gives L w D Q (codes "admin") new (new-IsTrue L w D Q) in
      (ground (arith, D.reads_uid (L.getuid w)), ground (arith, p, q), ground (arith, r))
