-- ===== src/Tests/System.antt =====
-- A small system that keeps to the documentation of the C library: the users root and fred, with
-- the groups root and fred, and buffers that must hold 4096 bytes.
use rust_users.Prelude.{
  ℕ, refl, inl, ltb, Option, none, some, List, [], ◌∷◌, ◌++◌, length, drop, codes, arith, ◌==◌,
  nat_eq, bytes_eq, if◌then◌else◌,
}
use rust_users.Prelude.Int.{ℤ, pos, negsuc}
use rust_users.Std.Ffi.{CharPtr}
use rust_users.Libc.{Libc, Passwd, CGroup, ArrayPtr, Reply, ResultPtr, Query, erange}
use rust_users.Libc.Database.{Serves, Database}
use rust_users.Libc.Lists.{GroupCalls}
use rust_users.Libc.Enumeration.{Enumeration}
use rust_users.Libc.Posix.{Ids, may, Posix}
use rust_users.Libc.Identity.{may_set, ids_set, may_set_both, ids_set_both}

-- The IDs of the process, its list of groups, and its position in the enumeration of users.
pub record Machine : Type 0 where
  pub users : Ids
  pub groups : Ids
  pub access : List ℕ
  pub position : List Passwd

abbrev c_string : List ℕ → CharPtr
c_string s = CharPtr.at (s ++ 0 ∷ 7 ∷ [])

abbrev passwd_of : List ℕ → ℕ → Passwd
passwd_of name id = record {
  pw_name = c_string name;
  pw_passwd = c_string (codes "x");
  pw_uid = id;
  pw_gid = id;
  pw_dir = c_string (codes "/home");
  pw_shell = c_string (codes "/bin/sh");
}

abbrev pub root_passwd : Passwd
root_passwd = passwd_of (codes "root") 0

-- A second name for the ID 0, which the tables below do not have.
abbrev pub toor_passwd : Passwd
toor_passwd = passwd_of (codes "toor") 0

abbrev pub fred_passwd : Passwd
fred_passwd = passwd_of (codes "fred") 1337

abbrev pub root_struct : CGroup
root_struct = record { gr_name = c_string (codes "root"); gr_gid = 0; gr_mem = ArrayPtr.null }

abbrev pub fred_struct : CGroup
fred_struct = record {
  gr_name = c_string (codes "fred");
  gr_gid = 1337;
  gr_mem = ArrayPtr.at (c_string (codes "fred") ∷ CharPtr.null ∷ []);
}

-- Two entries of a table, by ID and by name.
abbrev pub at_id : {C : Type 0} → C → C → ℕ → Option C
at_id root fred id = if id == 0 then some root else if id == 1337 then some fred else none

abbrev pub at_name : {C : Type 0} → C → C → List ℕ → Option C
at_name root fred name =
    if name == codes "root" ++ 0 ∷ []
    then some root
    else if name == codes "fred" ++ 0 ∷ []
    then some fred
    else none

abbrev reply_of : {C : Type 0} → C → Option C → Reply C
reply_of blank none = record { code = 0; result = ResultPtr.null; struct = blank }
reply_of blank (some c) = record { code = 0; result = ResultPtr.input; struct = c }

abbrev serve : {C K : Type 0} → C → (K → Option C) → Query Machine K C
serve blank entry key len w =
    if ltb len 4096
    then (record { code = erange; result = ResultPtr.null; struct = blank }, w)
    else (reply_of blank (entry key), w)

abbrev set_effective_user : ℕ → Machine → ℤ × Machine
set_effective_user id w =
    if may id w.users w.users
    then (pos 0, record w { users = record w.users { effective = id } })
    else (negsuc 0, w)

abbrev set_effective_group : ℕ → Machine → ℤ × Machine
set_effective_group id w =
    if may id w.groups w.users
    then (pos 0, record w { groups = record w.groups { effective = id } })
    else (negsuc 0, w)

abbrev set_user : ℕ → Machine → ℤ × Machine
set_user id w =
    if may_set id w.users w.users
    then (pos 0, record w { users = ids_set id w.users w.users })
    else (negsuc 0, w)

abbrev set_group : ℕ → Machine → ℤ × Machine
set_group id w =
    if may_set id w.groups w.users
    then (pos 0, record w { groups = ids_set id w.groups w.users })
    else (negsuc 0, w)

abbrev set_users : ℕ → ℕ → Machine → ℤ × Machine
set_users real effective w =
    if may_set_both real effective w.users w.users
    then (pos 0, record w { users = ids_set_both real effective w.users })
    else (negsuc 0, w)

abbrev set_groups : ℕ → ℕ → Machine → ℤ × Machine
set_groups real effective w =
    if may_set_both real effective w.groups w.users
    then (pos 0, record w { groups = ids_set_both real effective w.groups })
    else (negsuc 0, w)

abbrev copy_out : List ℕ → ℕ → List ℕ → Machine → ℤ × List ℕ × Machine
copy_out ids size buff w =
    if ltb size (length ids)
    then (negsuc 0, buff, w)
    else (pos (length ids), ids ++ drop (length ids) buff, w)

abbrev read_next : Machine → List Passwd → Option Passwd × Machine
read_next w [] = (none, w)
read_next w (p ∷ ps) = (some p, record w { position = ps })

abbrev all_entries : List Passwd
all_entries = root_passwd ∷ fred_passwd ∷ []

abbrev pub toy : Libc
toy = record {
  World = Machine;
  getpwuid_r = serve root_passwd (at_id root_passwd fred_passwd);
  getpwnam_r = serve root_passwd (at_name root_passwd fred_passwd);
  getgrgid_r = serve root_struct (at_id root_struct fred_struct);
  getgrnam_r = serve root_struct (at_name root_struct fred_struct);
  getuid = λ w. w.users.real;
  geteuid = λ w. w.users.effective;
  getgid = λ w. w.groups.real;
  getegid = λ w. w.groups.effective;
  getgroups = λ size buff w. copy_out w.access size buff w;
  getgrouplist = λ name gid buff count w. copy_out (gid ∷ w.access) count buff w;
  setpwent = λ w. record w { position = all_entries };
  getpwent = λ w. read_next w w.position;
  endpwent = λ w. record w { position = all_entries };
  setuid = set_user;
  setgid = set_group;
  seteuid = set_effective_user;
  setegid = set_effective_group;
  setreuid = set_users;
  setregid = set_groups;
  errno = λ w. 1;
}

-- Its database keeps to the documentation.
pub serve-Serves :
    {C K : Type 0} (blank : C) (entry : K → Option C)
    → Serves (serve blank entry) (λ (w : Machine). entry) (λ w k. 4096)
serve-Serves blank entry = record {
  keeps = λ k len w. ground arith;
  small = λ k len w h. ground arith;
  absent = λ k len w h e. ground arith;
  found = λ k len w c h e. ground arith;
}

abbrev pub toy_database : Database toy
toy_database = record {
  user_by_uid = λ w. at_id root_passwd fred_passwd;
  user_by_name = λ w. at_name root_passwd fred_passwd;
  group_by_gid = λ w. at_id root_struct fred_struct;
  group_by_name = λ w. at_name root_struct fred_struct;
  uid_needs = λ w k. 4096;
  name_needs = λ w k. 4096;
  gid_needs = λ w k. 4096;
  groupname_needs = λ w k. 4096;
  serves_uid = serve-Serves root_passwd (at_id root_passwd fred_passwd);
  serves_name = serve-Serves root_passwd (at_name root_passwd fred_passwd);
  serves_gid = serve-Serves root_struct (at_id root_struct fred_struct);
  serves_groupname = serve-Serves root_struct (at_name root_struct fred_struct);
}

abbrev pub toy_groups : GroupCalls toy
toy_groups = record {
  access = λ w. w.access;
  groups_of = λ w name gid. gid ∷ w.access;
  groups_of_has = λ w name gid. inl refl;
  getgroups_writes = λ size buff w h. ground arith;
  getgroups_fails = λ size buff w h. ground arith;
  getgrouplist_writes = λ name gid buff count w h. ground arith;
  getgrouplist_fails = λ name gid buff count w h. ground arith;
}

abbrev pub toy_enumeration : Enumeration toy
toy_enumeration = record {
  entries = λ w. all_entries;
  left = λ w. w.position;
  setpwent_rewinds = λ w. refl;
  getpwent_ends = λ w e. ground arith;
  getpwent_reads = λ w p ps e. ground arith;
}

abbrev pub toy_posix : Posix toy
toy_posix = record {
  uids = λ w. w.users;
  gids = λ w. w.groups;
  getuid_lem = λ w. refl;
  getgid_lem = λ w. refl;
  geteuid_lem = λ w. refl;
  getegid_lem = λ w. refl;
  seteuid_allowed = λ id w h. ground arith;
  seteuid_refused = λ id w h. ground arith;
  setegid_allowed = λ id w h. ground arith;
  setegid_refused = λ id w h. ground arith;
}

-- A process of root, and one of fred.
abbrev pub root_ids : Ids
root_ids = record { real = 0; effective = 0; saved = 0 }

abbrev pub fred_ids : Ids
fred_ids = record { real = 1337; effective = 1337; saved = 1337 }

abbrev pub as_root : Machine
as_root = record { users = root_ids; groups = root_ids; access = 0 ∷ 1337 ∷ []; position = [] }

abbrev pub as_fred : Machine
as_fred = record { users = fred_ids; groups = fred_ids; access = 1337 ∷ []; position = [] }
