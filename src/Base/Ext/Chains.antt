-- ===== src/Base/Ext/Chains.antt =====
-- base.rs: what chains of the setters of `UserExt` and `GroupExt` come to.
use mathlib.Core.List.{append_assoc, append-nil}
use mathlib.Core.Option
use rust_users.Prelude.{ℕ, ◌≡◌, refl, Option, none, some, List, [], ◌∷◌, ◌++◌, codes, arith}
use rust_users.Prelude.Int.{pos}
use rust_users.Std.Ffi.{OsString}
use rust_users.Base.Types
use rust_users.Base.Types.{
  Group, new_group, user_id, user_name_of, primary_group_id, group_id, group_name_of,
}
use rust_users.Base.Bsd
use rust_users.Base.Ext.{
  UserExt, linux_user, bsd_user, group_ext, bsd_times, Setting, home_dir_to, shell_to, password_to,
  set, configure, add_members,
}

-- The fields that `UserExt` reads and writes.
pub data Field : Type 0 where
  home_dir shell password : Field

-- What the documentation of `UserExt` calls the dummies.
abbrev pub dummy : Field → OsString
dummy home_dir = codes "/var/empty"
dummy shell = codes "/bin/false"
dummy password = codes "*"

abbrev pub read : {U : Type 0} ⦃E : UserExt U⦄ → Field → U → OsString
read ⦃E⦄ home_dir u = E.home_dir u
read ⦃E⦄ shell u = E.shell u
read ⦃E⦄ password u = E.password u

-- What a setting gives to a field.
abbrev given : Field → Setting → Option OsString
given home_dir (home_dir_to s) = some s
given shell (shell_to s) = some s
given password (password_to s) = some s
given _ _ = none

-- The last of the settings of a field.
pub last_given : Field → List Setting → Option OsString
last_given f [] = none
last_given f (c ∷ cs) = Option.or_else (last_given f cs) (given f c)

-- A setter writes its own field, and no other.
IsLawful : {U : Type 0} → UserExt U → Type 0
IsLawful {U} E =
    (f : Field) (c : Setting) (u : U)
    → read ⦃E = E⦄ f (set ⦃E = E⦄ c u) ≡ Option.get_or (given f c) (read ⦃E = E⦄ f u)

linux_user-IsLawful : IsLawful linux_user
unfolding IsLawful Types.with_home_dir Types.with_shell Types.with_password Types.home_dir
    Types.shell Types.password
linux_user-IsLawful f c u = ground arith

bsd_user-IsLawful : IsLawful bsd_user
unfolding IsLawful Bsd.with_home_dir Bsd.with_shell Bsd.with_password Bsd.home_dir Bsd.shell
    Bsd.password
bsd_user-IsLawful f c u = ground arith

module _ {U : Type 0} ⦃E : UserExt U⦄ where
  read-configure :
      (h : IsLawful E) (f : Field) (cs : List Setting) (u : U)
      → read f (configure cs u) ≡ Option.get_or (last_given f cs) (read f u)
  unfolding IsLawful configure last_given Option.or_else
  read-configure h f [] u = refl
  read-configure h f (c ∷ cs) u = ground (arith, read-configure h f cs (set c u), h f c u)

  -- What no setter touches stays as it is.
  pub kept-configure :
      {A : Type 0} (part : U → A)
      → ((c : Setting) (u : U) → part (set c u) ≡ part u)
      → (cs : List Setting) (u : U) → part (configure cs u) ≡ part u
  unfolding configure
  kept-configure part h [] u = refl
  kept-configure part h (c ∷ cs) u = ground (arith, kept-configure part h cs (set c u), h c u)

-- A map that commutes with each setter commutes with chains of them.
pub map-configure :
    {U V : Type 0} ⦃E : UserExt U⦄ ⦃F : UserExt V⦄ (f : U → V)
    → ((c : Setting) (u : U) → f (set c u) ≡ set c (f u))
    → (cs : List Setting) (u : U) → f (configure cs u) ≡ configure cs (f u)
unfolding configure
map-configure f h [] u = refl
map-configure f h (c ∷ cs) u = rw (map-configure f h cs (set c u), h c u) refl

members-add_members :
    (names : List OsString) (g : Group)
    → (Types.members_of (add_members names g) ≡ Types.members_of g ++ names)
      × (group_id (add_members names g) ≡ group_id g)
      × (group_name_of (add_members names g) ≡ group_name_of g)
unfolding add_members Types.add_member Types.members_of group_id group_name_of
members-add_members [] g = (rw append-nil refl, refl, refl)
members-add_members (name ∷ names) g =
    let (e, e', e'') = members-add_members names (Types.add_member name g) in
    (rw (e, append_assoc) refl, e', e'')

linux_parts-configure :
    (f : Field) (cs : List Setting) (id : ℕ) (name : OsString) (gid : ℕ)
    → let u = configure cs (Types.new_user id name gid) in
      (read f u ≡ Option.get_or (last_given f cs) (dummy f))
      × (user_id u ≡ id)
      × (user_name_of u ≡ name)
      × (primary_group_id u ≡ gid)
unfolding Types.new_user Types.default_user_extras Types.with_home_dir Types.with_shell
    Types.with_password Types.home_dir Types.shell Types.password user_id user_name_of
    primary_group_id
linux_parts-configure f cs id name gid =
    let new = Types.new_user id name gid in
    (
      ground (arith, read-configure linux_user-IsLawful f cs new),
      kept-configure user_id (λ c u. ground arith) cs new,
      kept-configure user_name_of (λ c u. ground arith) cs new,
      kept-configure primary_group_id (λ c u. ground arith) cs new,
    )

bsd_parts-configure :
    (f : Field) (cs : List Setting) (id : ℕ) (name : OsString) (gid : ℕ)
    → let u = configure cs (Bsd.new_user id name gid) in
      (read f u ≡ Option.get_or (last_given f cs) (dummy f))
      × (u.uid ≡ id)
      × (u.name_arc ≡ name)
      × (u.primary_group ≡ gid)
      × (Bsd.password_change_time u ≡ pos 0)
      × (Bsd.password_expire_time u ≡ pos 0)
unfolding Bsd.new_user Bsd.default_extras Types.default_user_extras Bsd.with_home_dir Bsd.with_shell
    Bsd.with_password Bsd.home_dir Bsd.shell Bsd.password Bsd.password_change_time
    Bsd.password_expire_time
bsd_parts-configure f cs id name gid =
    let new = Bsd.new_user id name gid in
    (
      ground (arith, read-configure bsd_user-IsLawful f cs new),
      kept-configure (λ u. u.uid) (λ c u. ground arith) cs new,
      kept-configure (λ u. u.name_arc) (λ c u. ground arith) cs new,
      kept-configure (λ u. u.primary_group) (λ c u. ground arith) cs new,
      kept-configure Bsd.password_change_time (λ c u. ground arith) cs new,
      kept-configure Bsd.password_expire_time (λ c u. ground arith) cs new,
    )

-- A user from `User::new`, on Linux and on the BSDs, after any chain of setters: each field holds
-- what was set last, or the dummy of the documentation if nothing was set. The ID, the name, the
-- primary group and the two times are as `User::new` made them. A group from `Group::new` after
-- any chain of `add_member` has the added names as its members, in order, and its own ID and name.
pub extensions_set :
    (f : Field) (cs : List Setting) (id : ℕ) (name : OsString) (gid : ℕ) (names : List OsString)
    → (let u = configure cs (Types.new_user id name gid) in
        (read f u ≡ Option.get_or (last_given f cs) (dummy f))
        × (user_id u ≡ id)
        × (user_name_of u ≡ name)
        × (primary_group_id u ≡ gid))
      × (let u = configure cs (Bsd.new_user id name gid) in
          (read f u ≡ Option.get_or (last_given f cs) (dummy f))
          × (u.uid ≡ id)
          × (u.name_arc ≡ name)
          × (u.primary_group ≡ gid)
          × (Bsd.password_change_time u ≡ pos 0)
          × (Bsd.password_expire_time u ≡ pos 0))
      × (let g = add_members names (new_group gid name) in
          (Types.members_of g ≡ names) × (group_id g ≡ gid) × (group_name_of g ≡ name))
unfolding new_group Types.default_group_extras Types.members_of group_id group_name_of
extensions_set f cs id name gid names = (
  linux_parts-configure f cs id name gid,
  bsd_parts-configure f cs id name gid,
  members-add_members names (new_group gid name),
)
