-- ===== src/Base/Types.antt =====
-- base.rs: `User` and `Group` with their constructors and accessors, and the extensions of
-- `os::unix`, as they are on Linux.
use rust_users.Prelude.{ℕ, codes, List, [], ◌∷◌, ◌++◌}
use rust_users.Std.Ffi.{OsString}

-- `os::unix::UserExtras`; a path is its bytes.
pub record UserExtras : Type 0 where
  pub home_dir : OsString
  pub shell : OsString
  pub password : OsString

-- `UserExtras::default`
unfoldable pub default_user_extras : UserExtras
default_user_extras = record {
  home_dir = codes "/var/empty";
  shell = codes "/bin/false";
  password = codes "*";
}

-- `os::unix::GroupExtras`
pub record GroupExtras : Type 0 where
  pub members : List OsString

unfoldable pub default_group_extras : GroupExtras
default_group_extras = record { members = [] }

pub record User : Type 0 where
  pub uid : ℕ
  pub primary_group : ℕ
  pub extras : UserExtras
  pub name_arc : OsString

pub record Group : Type 0 where
  pub gid : ℕ
  pub extras : GroupExtras
  pub name_arc : OsString

-- `User::new`
unfoldable pub new_user : ℕ → OsString → ℕ → User
unfolding default_user_extras
new_user uid name primary_group = record {
  uid = uid;
  primary_group = primary_group;
  extras = default_user_extras;
  name_arc = name;
}

-- `Group::new`
unfoldable pub new_group : ℕ → OsString → Group
unfolding default_group_extras
new_group gid name = record { gid = gid; extras = default_group_extras; name_arc = name }

-- The methods of `UserExt` that write.
unfoldable pub with_home_dir : OsString → User → User
with_home_dir home_dir u = record u { extras = record u.extras { home_dir = home_dir } }

unfoldable pub with_shell : OsString → User → User
with_shell shell u = record u { extras = record u.extras { shell = shell } }

unfoldable pub with_password : OsString → User → User
with_password password u = record u { extras = record u.extras { password = password } }

-- `GroupExt::add_member`
unfoldable pub add_member : OsString → Group → Group
add_member member g = record g { extras = record { members = g.extras.members ++ member ∷ [] } }

-- `User::uid`, `User::name`, `User::primary_group_id`
unfoldable pub user_id : User → ℕ
user_id u = u.uid

unfoldable pub user_name_of : User → OsString
user_name_of u = u.name_arc

unfoldable pub primary_group_id : User → ℕ
primary_group_id u = u.primary_group

-- `Group::gid`, `Group::name`
unfoldable pub group_id : Group → ℕ
group_id g = g.gid

unfoldable pub group_name_of : Group → OsString
group_name_of g = g.name_arc

-- The methods of `UserExt` and `GroupExt` that read.
unfoldable pub home_dir : User → OsString
home_dir u = u.extras.home_dir

unfoldable pub shell : User → OsString
shell u = u.extras.shell

unfoldable pub password : User → OsString
password u = u.extras.password

unfoldable pub members_of : Group → List OsString
members_of g = g.extras.members
