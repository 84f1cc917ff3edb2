-- ===== src/Examples/Output.antt =====
-- What the programs under examples/ print. A line is its format with the values that fill it in;
-- `to_string_lossy` of a name is part of the format.
use rust_users.Prelude.{ℕ}
use rust_users.Std.Ffi.{OsString}
pub use rust_users.Std.Output.{print, print_all, print_all_lem}

pub data Line : Type 0 where
  your_uid_is : (uid : ℕ) → Line
  your_username_is : (name : OsString) → Line
  your_shell_is : (shell : OsString) → Line
  your_home_directory_is : (home_dir : OsString) → Line
  your_primary_group_is : (gid : ℕ) → (name : OsString) → Line
  no_other_members : Line
  also_a_member : (name : OsString) → Line
  user_has_name : (uid : ℕ) → (name : OsString) → Line
  group_has_name : (gid : ℕ) → (name : OsString) → Line
  group_access_list_title : Line
