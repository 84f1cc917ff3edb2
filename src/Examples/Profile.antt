-- ===== src/Examples/Profile.antt =====
-- examples/example.rs and examples/os.rs: the user of the process, and its primary group.
use rust_users.Prelude.{
  ℕ, ◌≡◌, refl, Option, none, some, Option-cases, inl, inr, List, [], ◌∷◌, ◌++◌, map, arith, nat_eq,
}
use rust_users.Std.Exec.{Exec, Outcome, ret, stop, expected, os, expect, ◌>>=◌, ◌>>◌}
use rust_users.Std.Ffi.{OsString}
use rust_users.Libc.{Libc}
use rust_users.Base.Types.{
  User, Group, group_id, group_name_of, user_name_of, primary_group_id, shell, home_dir, members_of,
}
use rust_users.Base.Directory.{Directory}
use rust_users.Cache.{UsersCache, new, get_current_uid, get_user_by_uid, get_group_by_gid}
use rust_users.Cache.Answers.{IsUnique, IsTrue}
use rust_users.Cache.Answers.Methods.{get_group_by_gid-Gives}
use rust_users.Examples.CurrentUser.{current_user_lem}
use rust_users.Examples.Output.{
  Line, your_uid_is, your_username_is, your_shell_is, your_home_directory_is, your_primary_group_is,
  no_other_members, also_a_member, print, print_all, print_all_lem,
}

-- The state: what is printed, the cache, and the system.
abbrev pub State : Libc → Type 0
State L = List Line × (UsersCache × L.World)

module _ (L : Libc) where
  -- `main` of examples/example.rs
  pub example_main : Exec (State L) (Unit {0})
  unfolding user_name_of primary_group_id group_id group_name_of
  example_main = do
    current_uid ← os (get_current_uid L)
    print (your_uid_is current_uid)
    you ← os (get_user_by_uid L current_uid)
    you ← expect "No entry for current user!" you
    print (your_username_is (user_name_of you))
    primary_group ← os (get_group_by_gid L (primary_group_id you))
    primary_group ← expect "No entry for your primary group!" primary_group
    print (your_primary_group_is (group_id primary_group) (group_name_of primary_group))

  -- The `if` at the end of examples/os.rs.
  print_members : List OsString → Exec (State L) (Unit {0})
  print_members [] = print no_other_members
  print_members (username ∷ members) = print_all also_a_member (username ∷ members)

  -- `main` of examples/os.rs
  pub os_main : Exec (State L) (Unit {0})
  unfolding user_name_of primary_group_id group_id group_name_of shell home_dir members_of
      print_members
  os_main = do
    current_uid ← os (get_current_uid L)
    print (your_uid_is current_uid)
    you ← os (get_user_by_uid L current_uid)
    you ← expect "No entry for current user!" you
    print (your_username_is (user_name_of you))
    print (your_shell_is (shell you))
    print (your_home_directory_is (home_dir you))
    primary_group ← os (get_group_by_gid L (primary_group_id you))
    primary_group ← expect "No entry for your primary group!" primary_group
    print (your_primary_group_is (group_id primary_group) (group_name_of primary_group))
    print_members (members_of primary_group)

abbrev member_lines : List OsString → List Line
member_lines [] = no_other_members ∷ []
member_lines (name ∷ names) = map also_a_member (name ∷ names)

print_members_lem :
    (L : Libc) (names : List OsString) (out : List Line) (s : UsersCache × L.World)
    → print_members L names (out, s) ≡ (ret tt, (out ++ member_lines names, s))
unfolding print_members
print_members_lem L [] out s = refl
print_members_lem L (name ∷ names) out s = print_all_lem also_a_member (name ∷ names) out s

module _ (L : Libc) (w : L.World) (D : Directory L w) (Q : IsUnique L w D) where
  abbrev uid : ℕ
  uid = L.getuid w

  -- The lines on the user, and the last ones.
  abbrev about_user : User → List Line
  about_user u =
      your_uid_is uid
      ∷ your_username_is u.name_arc
      ∷ your_shell_is u.extras.shell
      ∷ your_home_directory_is u.extras.home_dir
      ∷ []

  abbrev about_group : User → Option Group → Outcome (Unit {0}) × List Line
  about_group u none = (stop (expected "No entry for your primary group!"), about_user u)
  about_group u (some g) = (
    ret tt,
    about_user u
        ++ your_primary_group_is u.primary_group g.name_arc ∷ member_lines g.extras.members,
  )

  -- How examples/os.rs should end, and what it should print before.
  abbrev pub os_report : Option User → Outcome (Unit {0}) × List Line
  os_report none = (stop (expected "No entry for current user!"), your_uid_is uid ∷ [])
  os_report (some u) = about_group u (D.group_by_gid u.primary_group)

  module _ (c : UsersCache) (t : IsTrue L w D Q c) (u : User) where
    -- The state when the primary group has been looked up.
    abbrev later : UsersCache × L.World
    later = (get_group_by_gid L u.primary_group (c, w)).1

    group_lem :
        get_group_by_gid L u.primary_group (c, w) ≡ (ret (D.group_by_gid u.primary_group), later)
    group_lem = λ i. ((get_group_by_gid-Gives L w D Q u.primary_group c t).0 i, later)

  os_prints :
      let (r, (out, _)) = os_main L ([], (new, w)) in (r, out) ≡ os_report (D.user_by_uid uid)
  unfolding os_main
  os_prints =
      let (c, p, c', t, q) = current_user_lem L w D Q in
      elim (Option-cases (D.user_by_uid uid)) [
        | inl e ↦ ground (arith, p, q, e)
        | inr (u, e) ↦ elim (Option-cases (D.group_by_gid u.primary_group)) [
          | inl f ↦ ground (arith, p, q, e, f, group_lem c' t u)
          | inr (g, f) ↦ ground (
            arith,
            p,
            q,
            e,
            f,
            group_lem c' t u,
            Q.group_own u.primary_group g f,
            print_members_lem L g.extras.members
                (about_user u ++ your_primary_group_is g.gid g.name_arc ∷ []) (later c' t u),
          )
        ]
      ]

  abbrev example_about_group : User → Option Group → Outcome (Unit {0}) × List Line
  example_about_group u none = (
    stop (expected "No entry for your primary group!"),
    your_uid_is uid ∷ your_username_is u.name_arc ∷ [],
  )
  example_about_group u (some g) = (
    ret tt,
    your_uid_is uid
        ∷ your_username_is u.name_arc
        ∷ your_primary_group_is u.primary_group g.name_arc
        ∷ [],
  )

  -- The same of examples/example.rs.
  abbrev pub example_report : Option User → Outcome (Unit {0}) × List Line
  example_report none = (stop (expected "No entry for current user!"), your_uid_is uid ∷ [])
  example_report (some u) = example_about_group u (D.group_by_gid u.primary_group)

  example_prints :
      let (r, (out, _)) = example_main L ([], (new, w)) in
      (r, out) ≡ example_report (D.user_by_uid uid)
  unfolding example_main
  example_prints =
      let (c, p, c', t, q) = current_user_lem L w D Q in
      elim (Option-cases (D.user_by_uid uid)) [
        | inl e ↦ ground (arith, p, q, e)
        | inr (u, e) ↦ elim (Option-cases (D.group_by_gid u.primary_group)) [
          | inl f ↦ ground (arith, p, q, e, f, group_lem c' t u)
          | inr (g, f) ↦
              ground (arith, p, q, e, f, group_lem c' t u, Q.group_own u.primary_group g f)
        ]
      ]

  -- The programs of examples/example.rs and examples/os.rs, over a directory that holds still and
  -- whose IDs are unique: without a user for the real ID, or without a group for the primary group
  -- of the user, each panics with the message for that, having printed the lines that come before;
  -- else it ends, having printed the user and the primary group, and examples/os.rs the members of
  -- the group too.
  pub profiles_print :
      (let (r, (out, _)) = example_main L ([], (new, w)) in
        (r, out) ≡ example_report (D.user_by_uid uid))
      × (let (r, (out, _)) = os_main L ([], (new, w)) in (r, out) ≡ os_report (D.user_by_uid uid))
  profiles_print = (example_prints, os_prints)
