-- ===== src/Docs/Lookups.antt =====
-- base.rs: the examples of the lookups, and of the IDs and names of the process.
use rust_users.Prelude.{ℕ, ◌≡◌, refl, Option, none, some, List, [], ◌∷◌, ◌++◌, codes, arith}
use rust_users.Std.Exec.{Exec, ret, os, ◌>>=◌}
use rust_users.Std.Ffi.{OsString}
use rust_users.Libc.{Libc}
use rust_users.Base.Types.{User, Group, user_id, user_name_of, group_id, group_name_of}
use rust_users.Base.Directory.{Directory}
use rust_users.Base.Lookup.{get_user_by_uid, get_user_by_name, get_group_by_gid, get_group_by_name}
use rust_users.Base.Process.{
  get_current_uid, get_current_username, get_effective_uid, get_effective_username, get_current_gid,
  get_current_groupname, get_effective_gid, get_effective_groupname,
}
use rust_users.Docs.Output.{Line, print}

-- `match found { Some(x) => println!(…), None => println!(…) }`
abbrev report : {A : Type 0} → (A → Line) → Line → Option A → Line
report line missing none = missing
report line missing (some a) = line a

-- A report of what a call returns.
abbrev print_report :
    {W A : Type 0} → (A → Line) → Line → Exec W (Option A) → Exec (List Line × W) (Unit {0})
print_report line missing call = do found ← os call; print (report line missing found)

module _ (L : Libc) where
  pub user_by_uid : Exec (List Line × L.World) (Unit {0})
  user_by_uid =
      print_report (λ u. Line.found_user (user_name_of u)) Line.user_not_found
        (get_user_by_uid L 501)

  pub user_by_name : Exec (List Line × L.World) (Unit {0})
  user_by_name =
      print_report (λ u. Line.found_user_id (user_id u)) Line.user_not_found
        (get_user_by_name L (codes "stevedore"))

  pub group_by_gid : Exec (List Line × L.World) (Unit {0})
  group_by_gid =
      print_report (λ g. Line.found_group (group_name_of g)) Line.group_not_found
        (get_group_by_gid L 102)

  pub group_by_name : Exec (List Line × L.World) (Unit {0})
  group_by_name =
      print_report (λ g. Line.found_group_id (group_id g)) Line.group_not_found
        (get_group_by_name L (codes "db-access"))

  pub current_uid : Exec (List Line × L.World) (Unit {0})
  current_uid = do id ← os (get_current_uid L); print (Line.current_user_id id)

  pub current_username : Exec (List Line × L.World) (Unit {0})
  current_username = print_report Line.running_as_user Line.no_current_user (get_current_username L)

  pub effective_uid : Exec (List Line × L.World) (Unit {0})
  effective_uid = do id ← os (get_effective_uid L); print (Line.effective_user_id id)

  pub effective_username : Exec (List Line × L.World) (Unit {0})
  effective_username =
      print_report Line.running_as_effective_user Line.no_effective_user (get_effective_username L)

  pub current_gid : Exec (List Line × L.World) (Unit {0})
  current_gid = do id ← os (get_current_gid L); print (Line.current_group_id id)

  pub current_groupname : Exec (List Line × L.World) (Unit {0})
  current_groupname =
      print_report Line.running_as_group Line.no_current_group (get_current_groupname L)

  pub effective_gid : Exec (List Line × L.World) (Unit {0})
  effective_gid = do id ← os (get_effective_gid L); print (Line.effective_group_id id)

  pub effective_groupname : Exec (List Line × L.World) (Unit {0})
  effective_groupname =
      print_report Line.running_as_effective_group Line.no_effective_group
        (get_effective_groupname L)

module _ (L : Libc) (w : L.World) (D : Directory L w) where
  abbrev user_named : (OsString → Line) → Line → ℕ → Line
  user_named line missing uid = report (λ (u : User). line u.name_arc) missing (D.user_by_uid uid)

  abbrev group_named : (OsString → Line) → Line → ℕ → Line
  group_named line missing gid =
      report (λ (g : Group). line g.name_arc) missing (D.group_by_gid gid)

  -- The examples print the line, and leave the world.
  abbrev Prints : Exec (List Line × L.World) (Unit {0}) → Line → Type 0
  Prints example line = (out : List Line) → example (out, w) ≡ (ret tt, (out ++ line ∷ [], w))

  -- Over a directory that holds still, each of the twelve examples ends, prints one line, and leaves
  -- the world as it is: the line says what the directory holds at the key in the example, or which
  -- ID the process has and what the directory holds at that ID.
  examples_print :
      Prints (user_by_uid L) (user_named Line.found_user Line.user_not_found 501)
      × Prints (user_by_name L) (
          report
            (λ (u : User). Line.found_user_id u.uid)
            Line.user_not_found
            (D.user_by_name (codes "stevedore")))
      × Prints (group_by_gid L) (group_named Line.found_group Line.group_not_found 102)
      × Prints (group_by_name L) (
          report
            (λ (g : Group). Line.found_group_id g.gid)
            Line.group_not_found
            (D.group_by_name (codes "db-access")))
      × Prints (current_uid L) (Line.current_user_id (L.getuid w))
      × Prints
          (current_username L)
          (user_named Line.running_as_user Line.no_current_user (L.getuid w))
      × Prints (effective_uid L) (Line.effective_user_id (L.geteuid w))
      × Prints
          (effective_username L)
          (user_named Line.running_as_effective_user Line.no_effective_user (L.geteuid w))
      × Prints (current_gid L) (Line.current_group_id (L.getgid w))
      × Prints
          (current_groupname L)
          (group_named Line.running_as_group Line.no_current_group (L.getgid w))
      × Prints (effective_gid L) (Line.effective_group_id (L.getegid w))
      × Prints
          (effective_groupname L)
          (group_named Line.running_as_effective_group Line.no_effective_group (L.getegid w))
  unfolding user_by_uid user_by_name group_by_gid group_by_name current_uid current_username
      effective_uid effective_username current_gid current_groupname effective_gid
      effective_groupname user_id user_name_of group_id group_name_of get_current_uid
      get_effective_uid get_current_gid get_effective_gid get_current_username
      get_effective_username get_current_groupname get_effective_groupname
  examples_print = (
    λ out. ground (arith, D.reads_uid 501),
    λ out. ground (arith, D.reads_name (codes "stevedore")),
    λ out. ground (arith, D.reads_gid 102),
    λ out. ground (arith, D.reads_groupname (codes "db-access")),
    λ out. refl,
    λ out. ground (arith, D.reads_uid (L.getuid w)),
    λ out. refl,
    λ out. ground (arith, D.reads_uid (L.geteuid w)),
    λ out. refl,
    λ out. ground (arith, D.reads_gid (L.getgid w)),
    λ out. refl,
    λ out. ground (arith, D.reads_gid (L.getegid w)),
  )
