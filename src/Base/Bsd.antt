-- ===== src/Base/Bsd.antt =====
-- base.rs on macOS and the BSDs, where a `passwd` also has two times: the extensions of `os::bsd`,
-- and `User` with them. `time_t` is an integer; no code computes with it.
pub mod Forget
use rust_users.Prelude.{ℕ, List, [], ◌∷◌}
use rust_users.Prelude.Int.{ℤ, pos}
use rust_users.Std.Exec.{Outcome, ret, bind}
use rust_users.Std.Ffi.{OsString}
use rust_users.Libc.{Passwd}
use rust_users.Base.Types
use rust_users.Base.Types.{default_user_extras}
use rust_users.Base.Raw
use rust_users.Base.Raw.{from_raw_buf}

-- `libc::passwd` there: `common` is the fields that Linux has too.
pub record BsdPasswd : Type 0 where
  pub common : Passwd
  pub pw_change : ℤ
  pub pw_expire : ℤ

-- `os::bsd::UserExtras`
pub record UserExtras : Type 0 where
  pub extras : Types.UserExtras
  pub change : ℤ
  pub expire : ℤ

unfoldable pub default_extras : UserExtras
unfolding default_user_extras
default_extras = record { extras = default_user_extras; change = pos 0; expire = pos 0 }

-- `User`, whose `extras` are those of `os::bsd`.
pub record User : Type 0 where
  pub uid : ℕ
  pub primary_group : ℕ
  pub extras : UserExtras
  pub name_arc : OsString

unfoldable pub new_user : ℕ → OsString → ℕ → User
unfolding default_extras
new_user uid name primary_group = record {
  uid = uid;
  primary_group = primary_group;
  extras = default_extras;
  name_arc = name;
}

-- `bsd::UserExtras::from_passwd`
unfoldable pub from_passwd : BsdPasswd → Outcome UserExtras
from_passwd passwd =
    bind (Raw.from_passwd passwd.common) λ extras.
      ret (record { extras = extras; change = passwd.pw_change; expire = passwd.pw_expire })

unfoldable pub passwd_to_user : BsdPasswd → Outcome User
unfolding from_passwd
passwd_to_user passwd = bind (from_raw_buf passwd.common.pw_name) λ name.
    bind (from_passwd passwd) λ extras. ret (record {
      uid = passwd.common.pw_uid;
      primary_group = passwd.common.pw_gid;
      extras = extras;
      name_arc = name;
    })

-- `impl unix::UserExt for User`
unfoldable pub home_dir : User → OsString
home_dir u = u.extras.extras.home_dir

unfoldable pub with_home_dir : OsString → User → User
with_home_dir home_dir u = record u {
  extras = record u.extras { extras = record u.extras.extras { home_dir = home_dir } };
}

unfoldable pub shell : User → OsString
shell u = u.extras.extras.shell

unfoldable pub with_shell : OsString → User → User
with_shell shell u = record u {
  extras = record u.extras { extras = record u.extras.extras { shell = shell } };
}

unfoldable pub password : User → OsString
password u = u.extras.extras.password

unfoldable pub with_password : OsString → User → User
with_password password u = record u {
  extras = record u.extras { extras = record u.extras.extras { password = password } };
}

-- `impl bsd::UserExt for User`
unfoldable pub password_change_time : User → ℤ
password_change_time u = u.extras.change

unfoldable pub password_expire_time : User → ℤ
password_expire_time u = u.extras.expire
