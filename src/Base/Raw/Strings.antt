-- ===== src/Base/Raw/Strings.antt =====
-- What the conversions make of the strings that the C library hands out.
use rust_users.Prelude.{ℕ, ◌≡◌, ◌≢◌, refl, false, List, [], ◌∷◌, ◌++◌, arith, nat_eq}
use rust_users.Std.Exec.{ret, diverges}
use rust_users.Std.Ffi.{OsString, CharPtr, has_nul, to_bytes}
use rust_users.Libc.{Passwd, CGroup, ArrayPtr}
use rust_users.Libc.Database.{Holds}
use rust_users.Base.Types.{User, Group}
use rust_users.Base.Raw.{
  from_raw_buf, members_from, members, from_passwd, from_struct, passwd_to_user, struct_to_group,
}

to_bytes-nul : (s rest : List ℕ) → has_nul s ≡ false → to_bytes (s ++ 0 ∷ rest) ≡ ret s
unfolding to_bytes has_nul
to_bytes-nul [] rest h = ground arith
to_bytes-nul (b ∷ s) rest h = ground (arith, to_bytes-nul s rest)

-- A string is read up to its first zero, whatever follows.
from_raw_buf_lem : {p : CharPtr} {s : OsString} → Holds p s → from_raw_buf p ≡ ret s
unfolding from_raw_buf
from_raw_buf_lem (rest, e, h) = ground (arith, to_bytes-nul _ rest h)

-- The struct holds the fields of the user.
pub record IsPasswdOf (p : Passwd) (u : User) : Type 0 where
  pub uid : p.pw_uid ≡ u.uid
  pub primary_group : p.pw_gid ≡ u.primary_group
  pub name : Holds p.pw_name u.name_arc
  pub home_dir : Holds p.pw_dir u.extras.home_dir
  pub shell : Holds p.pw_shell u.extras.shell
  pub password : Holds p.pw_passwd u.extras.password

-- A `passwd` that holds the fields of a user is turned into that user, whatever stands in memory
-- behind the strings.
pub passwd_to_user_lem : (p : Passwd) (u : User) → IsPasswdOf p u → passwd_to_user p ≡ ret u
unfolding passwd_to_user from_passwd
passwd_to_user_lem p u h = ground (
  arith,
  from_raw_buf_lem h.name,
  from_raw_buf_lem h.home_dir,
  from_raw_buf_lem h.shell,
  from_raw_buf_lem h.password,
)

-- The pointers lead to the names, and a null pointer ends them.
pub data HoldsAll : List CharPtr → List OsString → Type 0 where
  end : (ps : List CharPtr) → HoldsAll (CharPtr.null ∷ ps) []
  next :
      {p : CharPtr} {ps : List CharPtr} {s : OsString} {ss : List OsString}
      → Holds p s
      → HoldsAll ps ss
      → HoldsAll (p ∷ ps) (s ∷ ss)

members_from_at :
    (p : CharPtr) (ps : List CharPtr) {s : OsString} {ss : List OsString}
    → Holds p s
    → members_from ps ≡ ret ss
    → members_from (p ∷ ps) ≡ ret (s ∷ ss)
unfolding members_from
members_from_at CharPtr.null ps (rest, e, _) k = cc
members_from_at (CharPtr.at memory) ps h k = ground (arith, from_raw_buf_lem h)

members_from_lem :
    {ps : List CharPtr} {ss : List OsString} → HoldsAll ps ss → members_from ps ≡ ret ss
unfolding members_from
members_from_lem (end ps) = refl
members_from_lem (next {p} {ps} h t) = members_from_at p ps h (members_from_lem t)

-- An array that is null has no members.
abbrev HoldsMembers : ArrayPtr → List OsString → Type 0
HoldsMembers ArrayPtr.null ss = ss ≡ []
HoldsMembers (ArrayPtr.at ps) ss = HoldsAll ps ss

members_lem : (a : ArrayPtr) (ss : List OsString) → HoldsMembers a ss → members a ≡ ret ss
unfolding members
members_lem ArrayPtr.null ss h = cc
members_lem (ArrayPtr.at ps) ss h = members_from_lem h

pub record IsStructOf (c : CGroup) (g : Group) : Type 0 where
  pub gid : c.gr_gid ≡ g.gid
  pub name : Holds c.gr_name g.name_arc
  pub members : HoldsMembers c.gr_mem g.extras.members

-- A `group` that holds the name, the ID and the members of a group is turned into that group.
pub struct_to_group_lem : (c : CGroup) (g : Group) → IsStructOf c g → struct_to_group c ≡ ret g
unfolding struct_to_group from_struct
struct_to_group_lem c g h =
    ground (arith, from_raw_buf_lem h.name, members_lem c.gr_mem g.extras.members h.members)

-- The conversions always end: they return, or run into undefined behaviour.
to_bytes-ne-diverges : (s : List ℕ) → to_bytes s ≢ diverges
unfolding to_bytes
to_bytes-ne-diverges [] = ground arith
to_bytes-ne-diverges (b ∷ s) = ground (arith, to_bytes-ne-diverges s)

from_raw_buf-ne-diverges : (p : CharPtr) → from_raw_buf p ≢ diverges
unfolding from_raw_buf
from_raw_buf-ne-diverges CharPtr.null = ground arith
from_raw_buf-ne-diverges (CharPtr.at s) = to_bytes-ne-diverges s

members_from-ne-diverges : (ps : List CharPtr) → members_from ps ≢ diverges
unfolding members_from
members_from-ne-diverges [] = ground arith
members_from-ne-diverges (CharPtr.null ∷ ps) = ground arith
members_from-ne-diverges (CharPtr.at s ∷ ps) =
    ground (arith, from_raw_buf-ne-diverges (CharPtr.at s), members_from-ne-diverges ps)

pub passwd_to_user-ne-diverges : (p : Passwd) → passwd_to_user p ≢ diverges
unfolding passwd_to_user from_passwd
passwd_to_user-ne-diverges p = ground (
  arith,
  from_raw_buf-ne-diverges p.pw_name,
  from_raw_buf-ne-diverges p.pw_dir,
  from_raw_buf-ne-diverges p.pw_shell,
  from_raw_buf-ne-diverges p.pw_passwd,
)

members-ne-diverges : (a : ArrayPtr) → members a ≢ diverges
unfolding members
members-ne-diverges ArrayPtr.null = ground arith
members-ne-diverges (ArrayPtr.at ps) = members_from-ne-diverges ps

pub struct_to_group-ne-diverges : (c : CGroup) → struct_to_group c ≢ diverges
unfolding struct_to_group from_struct
struct_to_group-ne-diverges c =
    ground (arith, from_raw_buf-ne-diverges c.gr_name, members-ne-diverges c.gr_mem)
