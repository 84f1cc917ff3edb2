-- ===== src/Base/Bsd/Forget.antt =====
-- The users of the BSDs against those of Linux, and values that are built by several setters.
use mathlib.Core.Option
use rust_users.Prelude.{ℕ, ◌≡◌, refl, List, arith}
use rust_users.Std.Exec.{ret, bind}
use rust_users.Std.Ffi.{OsString}
use rust_users.Libc.{Passwd, Reply}
use rust_users.Base.Lookup.{fetch}
use rust_users.Base.Lookup.Restrict.{restrict, fetch-restrict}
use rust_users.Base.Types
use rust_users.Base.Raw
use rust_users.Base.Raw.{from_raw_buf}
use rust_users.Base.Bsd.{
  BsdPasswd, User, new_user, from_passwd, passwd_to_user, home_dir, with_home_dir, shell,
  with_shell, password, with_password, password_change_time, password_expire_time,
}
use rust_users.Base.Ext.{
  linux_user, bsd_user, Setting, home_dir_to, shell_to, password_to, set, configure,
}
use rust_users.Base.Ext.Chains.{kept-configure, map-configure}

-- The user without the two times.
abbrev pub forget : User → Types.User
forget u = record {
  uid = u.uid;
  primary_group = u.primary_group;
  extras = u.extras.extras;
  name_arc = u.name_arc;
}

forget-set : (c : Setting) (u : User) → forget (set c u) ≡ set c (forget u)
unfolding with_home_dir with_shell with_password Types.with_home_dir Types.with_shell
    Types.with_password
forget-set (home_dir_to s) u = refl
forget-set (shell_to s) u = refl
forget-set (password_to s) u = refl

forget-configure :
    (cs : List Setting) (u : User) → forget (configure cs u) ≡ configure cs (forget u)
forget-configure = map-configure forget forget-set

passwd_to_user-forget :
    (p : BsdPasswd) → bind (passwd_to_user p) (λ u. ret (forget u)) ≡ Raw.passwd_to_user p.common
unfolding passwd_to_user from_passwd Raw.passwd_to_user Raw.from_passwd
passwd_to_user-forget p = ground arith

-- The fields that Linux has too.
abbrev pub common_of : BsdPasswd → Passwd
common_of p = p.common

-- A lookup of a user on a BSD gives, but for the two times, what it gives on Linux with a C library
-- that answers alike without the times, failures included. So does making a user, calling setters
-- and reading a field. The setters leave the two times as they are.
pub bsd_agrees :
    {W : Type 0} (query : ℕ → W → Reply BsdPasswd × W) (w : W) (uid : ℕ) (name : OsString) (gid : ℕ)
    (cs : List Setting) (u : User)
    → (let (found, w') = fetch query passwd_to_user w in
        fetch (restrict common_of query) Raw.passwd_to_user w
        ≡ (bind found (λ v. ret (Option.map forget v)), w'))
      × (forget (configure cs (new_user uid name gid)) ≡ configure cs (Types.new_user uid name gid))
      × (home_dir (configure cs u) ≡ Types.home_dir (configure cs (forget u)))
      × (shell (configure cs u) ≡ Types.shell (configure cs (forget u)))
      × (password (configure cs u) ≡ Types.password (configure cs (forget u)))
      × (password_change_time (configure cs u) ≡ password_change_time u)
      × (password_expire_time (configure cs u) ≡ password_expire_time u)
unfolding new_user Types.new_user home_dir shell password Types.home_dir Types.shell Types.password
    with_home_dir with_shell with_password password_change_time password_expire_time
bsd_agrees query w uid name gid cs u =
    let e = forget-configure cs u in
    (
      fetch-restrict common_of forget passwd_to_user Raw.passwd_to_user passwd_to_user-forget query
          w,
      forget-configure cs (new_user uid name gid),
      rw (← e) refl,
      rw (← e) refl,
      rw (← e) refl,
      kept-configure password_change_time (λ c v. ground arith) cs u,
      kept-configure password_expire_time (λ c v. ground arith) cs u,
    )
