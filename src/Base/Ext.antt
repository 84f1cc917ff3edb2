-- ===== src/Base/Ext.antt =====
-- base.rs: the traits `unix::UserExt`, `unix::GroupExt` and `bsd::UserExt`, as records of
-- operations, with their implementations, and programs that are written against them.
pub mod Chains
use rust_users.Prelude.{List, [], ◌∷◌}
use rust_users.Prelude.Int.{ℤ}
use rust_users.Std.Ffi.{OsString}
use rust_users.Base.Types
use rust_users.Base.Types.{Group}
use rust_users.Base.Bsd

-- `unix::UserExt`; a setter takes the user and gives it back.
pub record UserExt (U : Type 0) : Type 0 where
  pub home_dir : U → OsString
  pub with_home_dir : OsString → U → U
  pub shell : U → OsString
  pub with_shell : OsString → U → U
  pub password : U → OsString
  pub with_password : OsString → U → U

-- `unix::GroupExt`
pub record GroupExt (G : Type 0) : Type 0 where
  pub members : G → List OsString
  pub add_member : OsString → G → G

-- `bsd::UserExt`
pub record BsdUserExt (U : Type 0) : Type 0 where
  pub password_change_time : U → ℤ
  pub password_expire_time : U → ℤ

-- `impl UserExt for User`, where `User` has the extensions of `os::unix`.
instance abbrev pub linux_user : UserExt Types.User
linux_user = record {
  home_dir = Types.home_dir;
  with_home_dir = Types.with_home_dir;
  shell = Types.shell;
  with_shell = Types.with_shell;
  password = Types.password;
  with_password = Types.with_password;
}

-- `impl unix::UserExt for User` in `os::bsd`
instance abbrev pub bsd_user : UserExt Bsd.User
bsd_user = record {
  home_dir = Bsd.home_dir;
  with_home_dir = Bsd.with_home_dir;
  shell = Bsd.shell;
  with_shell = Bsd.with_shell;
  password = Bsd.password;
  with_password = Bsd.with_password;
}

-- `impl GroupExt for Group`
instance abbrev pub group_ext : GroupExt Group
group_ext = record { members = Types.members_of; add_member = Types.add_member }

-- `impl bsd::UserExt for User`
instance abbrev pub bsd_times : BsdUserExt Bsd.User
bsd_times = record {
  password_change_time = Bsd.password_change_time;
  password_expire_time = Bsd.password_expire_time;
}

-- A call of a setter of `UserExt`.
pub data Setting : Type 0 where
  home_dir_to shell_to password_to : OsString → Setting

abbrev pub set : {U : Type 0} ⦃E : UserExt U⦄ → Setting → U → U
set ⦃E⦄ (home_dir_to s) u = E.with_home_dir s u
set ⦃E⦄ (shell_to s) u = E.with_shell s u
set ⦃E⦄ (password_to s) u = E.with_password s u

-- A chain of setters, as in `user.with_shell(…).with_home_dir(…)`.
pub configure : {U : Type 0} ⦃E : UserExt U⦄ → List Setting → U → U
configure [] u = u
configure (c ∷ cs) u = configure cs (set c u)

-- A chain of `add_member`.
pub add_members : {G : Type 0} ⦃E : GroupExt G⦄ → List OsString → G → G
add_members [] g = g
add_members ⦃E⦄ (name ∷ names) g = add_members names (E.add_member name g)
