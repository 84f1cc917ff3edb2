-- ===== src/Base/Debug.antt =====
-- base.rs: `Debug` of `User` and `Group`, which `{:?}` and `{:#?}` call. What `debug_struct` writes
-- is a tree; `lossy` stands for `to_string_lossy`.
pub mod Read
use rust_users.Prelude.{ℕ, Bool, true, false, String, List, [], ◌∷◌, ◌++◌, codes}
use rust_users.Std.Ffi.{OsString}
use rust_users.Std.Text.{decimal}
use rust_users.Base.Types.{
  UserExtras, GroupExtras, User, Group, user_id, user_name_of, group_id, group_name_of,
}

mutual
  pub data Tree : Type 0 where
    number : ℕ → Tree
    quoted : OsString → Tree
    quoted_list : List OsString → Tree
    structure : String → Fields → Tree

  pub data Fields : Type 0 where
    end : Fields
    field : String → Tree → Fields → Fields

-- What the formatter holds in the end.
pub data Formatted : Type 0 where
  pretty : Tree → Formatted
  text : List ℕ → Formatted

-- The derived `Debug` of the extras.
abbrev user_extras_tree : UserExtras → Tree
user_extras_tree extras = structure "UserExtras" (
    field "home_dir" (quoted extras.home_dir)
      (field "shell" (quoted extras.shell) (field "password" (quoted extras.password) end)))

abbrev group_extras_tree : GroupExtras → Tree
group_extras_tree extras =
    structure "GroupExtras" (field "members" (quoted_list extras.members) end)

-- `write!(f, "…({}, {})", id, name)`
abbrev pub short : String → ℕ → List ℕ → List ℕ
short title id name = codes title ++ (b'(' ∷ (decimal id ++ (b',' ∷ b' ' ∷ (name ++ b')' ∷ []))))

module _ (lossy : OsString → List ℕ) where
  -- `<User as Debug>::fmt`, with `f.alternate()`
  pub fmt_user : Bool → User → Formatted
  unfolding user_id user_name_of decimal
  fmt_user true u = pretty (
      structure "User" (
        field "uid" (number u.uid) (
          field "name_arc" (quoted u.name_arc) (
            field "primary_group" (number u.primary_group)
              (field "extras" (user_extras_tree u.extras) end)))))
  fmt_user false u = text (short "User" (user_id u) (lossy (user_name_of u)))

  -- `<Group as Debug>::fmt`
  pub fmt_group : Bool → Group → Formatted
  unfolding group_id group_name_of decimal
  fmt_group true g = pretty (
      structure "Group" (
        field "gid" (number g.gid)
          (field "name_arc" (quoted g.name_arc) (field "extras" (group_extras_tree g.extras) end))))
  fmt_group false g = text (short "Group" (group_id g) (lossy (group_name_of g)))
