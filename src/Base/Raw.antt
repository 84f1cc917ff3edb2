-- ===== src/Base/Raw.antt =====
-- base.rs: reading the structs of the C library, whose fields are pointers.
pub mod Strings
use rust_users.Prelude.{ℕ, List, [], ◌∷◌}
use rust_users.Std.Exec.{Outcome, ret, stop, undefined_behaviour, bind}
use rust_users.Std.Ffi.{OsString, CharPtr, to_bytes}
use rust_users.Libc.{Passwd, CGroup, ArrayPtr}
use rust_users.Base.Types.{UserExtras, GroupExtras, User, Group}

pub from_raw_buf : CharPtr → Outcome OsString
unfolding to_bytes
from_raw_buf CharPtr.null = stop undefined_behaviour
from_raw_buf (CharPtr.at memory) = to_bytes memory

-- The loop of `members`, from the pointer `groups.offset(i)` on.
pub members_from : List CharPtr → Outcome (List OsString)
members_from [] = stop undefined_behaviour
members_from (CharPtr.null ∷ ps) = ret []
members_from (CharPtr.at memory ∷ ps) =
    let rest = members_from ps in
    bind (from_raw_buf (CharPtr.at memory)) λ name. bind rest λ names. ret (name ∷ names)

pub members : ArrayPtr → Outcome (List OsString)
unfolding members_from
members ArrayPtr.null = ret []
members (ArrayPtr.at pointers) = members_from pointers

-- `UserExtras::from_passwd`
unfoldable pub from_passwd : Passwd → Outcome UserExtras
from_passwd passwd = bind (from_raw_buf passwd.pw_dir) λ home_dir.
    bind (from_raw_buf passwd.pw_shell) λ shell.
      bind (from_raw_buf passwd.pw_passwd)
        λ password. ret (record { home_dir = home_dir; shell = shell; password = password })

-- `GroupExtras::from_struct`
pub from_struct : CGroup → Outcome GroupExtras
unfolding members
from_struct group = bind (members group.gr_mem) λ names. ret (record { members = names })

unfoldable pub passwd_to_user : Passwd → Outcome User
unfolding from_raw_buf from_passwd
passwd_to_user passwd = bind (from_raw_buf passwd.pw_name) λ name.
    bind (from_passwd passwd) λ extras. ret (record {
      uid = passwd.pw_uid;
      primary_group = passwd.pw_gid;
      extras = extras;
      name_arc = name;
    })

unfoldable pub struct_to_group : CGroup → Outcome Group
unfolding from_raw_buf from_struct
struct_to_group group = bind (from_raw_buf group.gr_name) λ name.
    bind (from_struct group)
      λ extras. ret (record { gid = group.gr_gid; extras = extras; name_arc = name })
