-- ===== src/Docs/Output.antt =====
-- What the examples in the documentation print. `{:?}` of a name and `to_string_lossy` are part of
-- a line's format.
use rust_users.Prelude.{ℕ, Option}
use rust_users.Std.Ffi.{OsString}
pub use rust_users.Std.Output.{print, print_all, print_all_lem}

pub data Line : Type 0 where
  found_user found_group : (name : OsString) → Line
  found_user_id found_group_id : (id : ℕ) → Line
  user_not_found group_not_found : Line
  current_user_id effective_user_id current_group_id effective_group_id : (id : ℕ) → Line
  running_as_user running_as_effective_user : (name : OsString) → Line
  running_as_group running_as_effective_group : (name : OsString) → Line
  no_current_user no_effective_user no_current_group no_effective_group : Line
  user_in_group : (name : OsString) → Line
  process_can_access user_is_member user_listed : (id : ℕ) → (name : OsString) → Line
  hello hello_again : (name : OsString) → Line
  group_has_id : (name : OsString) → (id : ℕ) → Line
  current_user : (name : Option OsString) → Line
