-- ===== src/Base/Debug/Read.antt =====
-- Reading back what `Debug` wrote.
use rust_users.Prelude.{
  ℕ, ◌≡◌, ◌≢◌, refl, ap, Bool, true, false, ◌&&◌, String, Option, none, some, List, [], ◌∷◌, ◌++◌,
  codes, drop, All, arith, ◌==◌, nat_eq, if◌then◌else◌,
}
use rust_users.Std.Ffi.{OsString}
use rust_users.Std.Text.{decimal, value, value-decimal, IsDigit, decimal-All}
use rust_users.Base.Types.{User, Group, user_id, user_name_of, group_id, group_name_of}
use rust_users.Base.Debug.{
  Tree, Fields, Formatted, pretty, text, number, quoted, quoted_list, structure, end, field, short,
  fmt_user, fmt_group,
}

-- The bytes before the first such byte, and those behind it.
abbrev split_at : ℕ → List ℕ → List ℕ × List ℕ
split_at at [] = ([], [])
split_at at (b ∷ bs) =
    let (before, behind) = split_at at bs in if b == at then ([], bs) else (b ∷ before, behind)

abbrev without_last : List ℕ → List ℕ
without_last [] = []
without_last (b ∷ []) = []
without_last (b ∷ c ∷ bs) = b ∷ without_last (c ∷ bs)

-- The title, the number and the name of a short form: what stands before the parenthesis, before
-- the comma, and between the blank behind it and the last byte.
abbrev pub read_text : Formatted → Option (List ℕ × ℕ × List ℕ)
read_text (pretty tree) = none
read_text (text bytes) =
    let (title, rest) = split_at 40 bytes in
    let (digits, behind) = split_at 44 rest in
    some (title, value digits, without_last (drop 1 behind))

split_at-append :
    (at : ℕ) (ds bs : List ℕ) → All (λ d. d ≢ at) ds → split_at at (ds ++ at ∷ bs) ≡ (ds, bs)
split_at-append at [] bs h = ground arith
split_at-append at (d ∷ ds) bs h = ground (arith, split_at-append at ds bs h.1, h.0)

digits_apart : (ds : List ℕ) → All IsDigit ds → All (λ d. d ≢ 44) ds
digits_apart [] h = tt
digits_apart (d ∷ ds) (h, hs) = (ground (arith, h), digits_apart ds hs)

without_last-append : (bs : List ℕ) (b : ℕ) → without_last (bs ++ b ∷ []) ≡ bs
without_last-append [] b = refl
without_last-append (c ∷ []) b = refl
without_last-append (c ∷ d ∷ bs) b = ap (◌∷◌ c) (without_last-append (d ∷ bs) b)

read_text-short :
    (title : String) (id : ℕ) (name : List ℕ)
    → All (λ d. d ≢ 40) (codes title)
    → read_text (text (short title id name)) ≡ some (codes title, id, name)
read_text-short title id name plain = ground (
  arith,
  split_at-append 40 (codes title) (decimal id ++ (44 ∷ 32 ∷ (name ++ 41 ∷ []))) plain,
  split_at-append 44 (decimal id) (32 ∷ (name ++ 41 ∷ []))
      (digits_apart (decimal id) (decimal-All id)),
  value-decimal id,
  without_last-append name 41,
)

-- Whether two words are the same.
abbrev same : List ℕ → List ℕ → Bool
same [] [] = true
same (a ∷ rest) (b ∷ bs) = a == b && same rest bs
same _ _ = false

-- The content under a label, wherever it stands.
abbrev under : String → Fields → Option Tree
under label end = none
under label (field l tree fields) =
    if same (codes l) (codes label) then some tree else under label fields

-- The fields of a struct with this title.
abbrev titled : String → Option Tree → Option Fields
titled title (some (structure t fields)) =
    if same (codes t) (codes title) then some fields else none
titled title _ = none

abbrev number_of : Option Tree → Option ℕ
number_of (some (number n)) = some n
number_of _ = none

abbrev quoted_of : Option Tree → Option OsString
quoted_of (some (quoted s)) = some s
quoted_of _ = none

abbrev list_of : Option Tree → Option (List OsString)
list_of (some (quoted_list ss)) = some ss
list_of _ = none

abbrev tree_of : Formatted → Option Tree
tree_of (pretty tree) = some tree
tree_of (text bytes) = none

infixl 5 ◌>>=◌
abbrev ◌>>=◌ : {A B : Type 0} → Option A → (A → Option B) → Option B
none >>= f = none
some a >>= f = f a

-- A user or a group from the fields under their names in the source, in any order.
abbrev pub read_user : Formatted → Option User
read_user formatted = do
  fields ← titled "User" (tree_of formatted)
  extras ← titled "UserExtras" (under "extras" fields)
  uid ← number_of (under "uid" fields)
  name_arc ← quoted_of (under "name_arc" fields)
  primary_group ← number_of (under "primary_group" fields)
  home_dir ← quoted_of (under "home_dir" extras)
  shell ← quoted_of (under "shell" extras)
  password ← quoted_of (under "password" extras)
  some (record {
    uid = uid;
    primary_group = primary_group;
    extras = record { home_dir = home_dir; shell = shell; password = password };
    name_arc = name_arc;
  })

abbrev pub read_group : Formatted → Option Group
read_group formatted = do
  fields ← titled "Group" (tree_of formatted)
  extras ← titled "GroupExtras" (under "extras" fields)
  gid ← number_of (under "gid" fields)
  name_arc ← quoted_of (under "name_arc" fields)
  members ← list_of (under "members" extras)
  some (record { gid = gid; extras = record { members = members }; name_arc = name_arc })

-- The text that `{:?}` prints of a user or of a group can be read back to its kind, its ID and its
-- name, as `to_string_lossy` makes it. What is passed to `debug_struct` for `{:#?}` has the titles
-- and the labels of the source, and from the fields under them the whole value can be read back.
pub debug_reads_back :
    (lossy : OsString → List ℕ) (u : User) (g : Group)
    → (read_text (fmt_user lossy false u) ≡ some (codes "User", u.uid, lossy u.name_arc))
      × (read_text (fmt_group lossy false g) ≡ some (codes "Group", g.gid, lossy g.name_arc))
      × (read_user (fmt_user lossy true u) ≡ some u)
      × (read_group (fmt_group lossy true g) ≡ some g)
unfolding fmt_user fmt_group user_id user_name_of group_id group_name_of nat_eq
debug_reads_back lossy u g = (
  read_text-short "User" u.uid (lossy u.name_arc) (ground arith),
  read_text-short "Group" g.gid (lossy g.name_arc) (ground arith),
  refl,
  refl,
)
