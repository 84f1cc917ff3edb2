-- ===== src/Tests/Readable.antt =====
-- The database of the small system is readable, and its IDs are unique.
use rust_users.Prelude.{
  ℕ, ◌≡◌, ◌⊎◌, inl, inr, refl, some, List, [], ◌∷◌, codes, arith, ◌==◌, nat_eq, bytes_eq,
  if◌then◌else◌,
}
use rust_users.Std.Ffi.{has_nul}
use rust_users.Libc.{Passwd, CGroup}
use rust_users.Base.Types.{User, Group}
use rust_users.Base.Raw.Strings.{IsPasswdOf, IsStructOf, end, next}
use rust_users.Base.Directory.{Directory}
use rust_users.Base.Directory.Build.{IsReadable, database_directory}
use rust_users.Tests.System.{
  Machine, toy, toy_database, at_id, at_name, root_passwd, fred_passwd, root_struct, fred_struct,
}

abbrev pub user_of : List ℕ → ℕ → User
user_of name id = record {
  uid = id;
  primary_group = id;
  extras = record { home_dir = codes "/home"; shell = codes "/bin/sh"; password = codes "x" };
  name_arc = name;
}

abbrev pub root : User
root = user_of (codes "root") 0

abbrev pub fred : User
fred = user_of (codes "fred") 1337

abbrev pub root_group : Group
root_group = record { gid = 0; extras = record { members = [] }; name_arc = codes "root" }

abbrev pub fred_group : Group
fred_group = record {
  gid = 1337;
  extras = record { members = codes "fred" ∷ [] };
  name_arc = codes "fred";
}

abbrev read_user : Passwd → User
read_user p = if p.pw_uid == 0 then root else fred

abbrev read_group : CGroup → Group
read_group c = if c.gr_gid == 0 then root_group else fred_group

-- What the two tables hold.
pub at_id_cases :
    {C : Type 0} (r f : C) (id : ℕ) (c : C)
    → at_id r f id ≡ some c
    → ((id ≡ 0) × (c ≡ r)) ⊎ ((id ≡ 1337) × (c ≡ f))
at_id_cases r f id c e = ground arith

pub at_name_cases :
    {C : Type 0} (r f : C) (name : List ℕ) (c : C) → at_name r f name ≡ some c → (c ≡ r) ⊎ (c ≡ f)
at_name_cases r f name c e = ground arith

pub root_passwd-IsPasswdOf : IsPasswdOf root_passwd root
unfolding has_nul nat_eq
root_passwd-IsPasswdOf = record {
  uid = refl;
  primary_group = refl;
  name = (7 ∷ [], refl, refl);
  home_dir = (7 ∷ [], refl, refl);
  shell = (7 ∷ [], refl, refl);
  password = (7 ∷ [], refl, refl);
}

pub fred_passwd-IsPasswdOf : IsPasswdOf fred_passwd fred
unfolding has_nul nat_eq
fred_passwd-IsPasswdOf = record {
  uid = refl;
  primary_group = refl;
  name = (7 ∷ [], refl, refl);
  home_dir = (7 ∷ [], refl, refl);
  shell = (7 ∷ [], refl, refl);
  password = (7 ∷ [], refl, refl);
}

root_struct-IsStructOf : IsStructOf root_struct root_group
unfolding has_nul nat_eq
root_struct-IsStructOf = record { gid = refl; name = (7 ∷ [], refl, refl); members = refl }

fred_struct-IsStructOf : IsStructOf fred_struct fred_group
unfolding has_nul nat_eq
fred_struct-IsStructOf = record {
  gid = refl;
  name = (7 ∷ [], refl, refl);
  members = next (7 ∷ [], refl, refl) (end []);
}

pub passwd_holds : (p : Passwd) → (p ≡ root_passwd) ⊎ (p ≡ fred_passwd) → IsPasswdOf p (read_user p)
unfolding nat_eq
passwd_holds p (inl e) = rw e root_passwd-IsPasswdOf
passwd_holds p (inr e) = rw e fred_passwd-IsPasswdOf

pub struct_holds :
    (c : CGroup) → (c ≡ root_struct) ⊎ (c ≡ fred_struct) → IsStructOf c (read_group c)
unfolding nat_eq
struct_holds c (inl e) = rw e root_struct-IsStructOf
struct_holds c (inr e) = rw e fred_struct-IsStructOf

abbrev pub toy_readable : (w : Machine) → IsReadable toy toy_database w
toy_readable w = record {
  user = read_user;
  group = read_group;
  uid_fits = λ uid. omega arith;
  name_fits = λ name. omega arith;
  gid_fits = λ gid. omega arith;
  groupname_fits = λ name. omega arith;
  uid_holds =
      λ uid p e. passwd_holds p (ground (arith, at_id_cases root_passwd fred_passwd uid p e));
  name_holds = λ name p e. passwd_holds p (at_name_cases root_passwd fred_passwd name p e);
  gid_holds =
      λ gid c e. struct_holds c (ground (arith, at_id_cases root_struct fred_struct gid c e));
  groupname_holds = λ name c e. struct_holds c (at_name_cases root_struct fred_struct name c e);
}

abbrev pub toy_directory : (w : Machine) → Directory toy w
toy_directory w = database_directory toy toy_database w (toy_readable w)
