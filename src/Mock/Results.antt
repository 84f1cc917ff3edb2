-- ===== src/Mock/Results.antt =====
-- What the methods of a mock return.
use rust_users.Prelude.{
  ℕ, ◌≡◌, ◌≢◌, refl, none, some, List, arith, ◌==◌, nat_eq, bytes_eq, if◌then◌else◌,
}
use rust_users.Std.Ffi.{OsString}
use rust_users.Std.HashMap.{HashMap, get-insert}
use rust_users.Base.Types.{User, Group}
use rust_users.Mock.{
  MockUsers, with_current_uid, add_user, add_group, get_user_by_uid, get_user_by_name,
  get_current_uid, get_group_by_gid, get_group_by_name,
}
use rust_users.Mock.Table.{IsTable, insert-IsTable, values-get, IsOrder, find-some, find-none}

-- Users and groups stand under their own IDs.
pub record IsValid (m : MockUsers) : Type 0 where
  pub users : IsTable (λ (u : User). u.uid) m.users
  pub groups : IsTable (λ (g : Group). g.gid) m.groups

-- In a new mock users and groups stand under their own IDs, each ID once, and adding a user or a
-- group to a mock that is so keeps it so.
mock-IsValid :
    (uid : ℕ) (m : MockUsers) (u : User) (g : Group)
    → IsValid m
    → IsValid (with_current_uid uid) × IsValid (add_user u m).1 × IsValid (add_group g m).1
unfolding with_current_uid add_user add_group
mock-IsValid uid m u g h = (
  record { users = tt; groups = tt },
  record { users = insert-IsTable (λ (x : User). x.uid) u m.users h.users; groups = h.groups },
  record { users = h.users; groups = insert-IsTable (λ (x : Group). x.gid) g m.groups h.groups },
)

-- Adding a user returns the one that had its ID, and then this user is found under the ID. No
-- other ID, no group and not the current ID is changed. The same holds of adding a group.
add_lem :
    (m : MockUsers) (u : User) (g : Group) (id : ℕ)
    → (let (old, m') = add_user u m in
        (old ≡ get_user_by_uid u.uid m)
        × (get_user_by_uid id m' ≡ (if id == u.uid then some u else get_user_by_uid id m))
        × (get_group_by_gid id m' ≡ get_group_by_gid id m)
        × (get_current_uid m' ≡ get_current_uid m))
      × (let (old, m') = add_group g m in
          (old ≡ get_group_by_gid g.gid m)
          × (get_group_by_gid id m' ≡ (if id == g.gid then some g else get_group_by_gid id m))
          × (get_user_by_uid id m' ≡ get_user_by_uid id m)
          × (get_current_uid m' ≡ get_current_uid m))
unfolding add_user add_group get_user_by_uid get_group_by_gid get_current_uid
add_lem m u g id = (
  (refl, get-insert id u.uid u m.users, refl, refl),
  (refl, get-insert id g.gid g m.groups, refl, refl),
)

module _ (values : HashMap ℕ User → List User) (order : IsOrder values) (m : MockUsers)
    (h : IsValid m) (name : OsString) (u : User) where
  -- In a valid mock, in whatever order its map iterates, a user that is found by name has the name,
  -- and is the user that is found under its ID.
  pub get_user_by_name_some :
      get_user_by_name values name m ≡ some u
      → (u.name_arc ≡ name) × (get_user_by_uid u.uid m ≡ some u)
  unfolding get_user_by_name get_user_by_uid
  get_user_by_name_some e =
      let (here, named) = find-some (λ (x : User). x.name_arc == name) (values m.users) u e in
      (
        ground arith,
        (values-get (λ (x : User). x.uid) u m.users h.users).0 ((order m.users u).0 here),
      )

  -- In a valid mock, in whatever order its map iterates, if no user is found by a name, no user
  -- that is found under its own ID has the name.
  pub get_user_by_name_none :
      get_user_by_name values name m ≡ none → get_user_by_uid u.uid m ≡ some u → u.name_arc ≢ name
  unfolding get_user_by_name get_user_by_uid
  get_user_by_name_none e at =
      let here = (order m.users u).1 ((values-get (λ (x : User). x.uid) u m.users h.users).1 at) in
      let other = find-none (λ (x : User). x.name_arc == name) (values m.users) u e here in
      ground arith

module _ (values : HashMap ℕ Group → List Group) (order : IsOrder values) (m : MockUsers)
    (h : IsValid m) (name : OsString) (g : Group) where
  -- In a valid mock, in whatever order its map iterates, a group that is found by name has the
  -- name, and is the group that is found under its ID.
  get_group_by_name_some :
      get_group_by_name values name m ≡ some g
      → (g.name_arc ≡ name) × (get_group_by_gid g.gid m ≡ some g)
  unfolding get_group_by_name get_group_by_gid
  get_group_by_name_some e =
      let (here, named) = find-some (λ (x : Group). x.name_arc == name) (values m.groups) g e in
      (
        ground arith,
        (values-get (λ (x : Group). x.gid) g m.groups h.groups).0 ((order m.groups g).0 here),
      )

  -- In a valid mock, in whatever order its map iterates, if no group is found by a name, no group
  -- that is found under its own ID has the name.
  get_group_by_name_none :
      get_group_by_name values name m ≡ none → get_group_by_gid g.gid m ≡ some g → g.name_arc ≢ name
  unfolding get_group_by_name get_group_by_gid
  get_group_by_name_none e at =
      let here =
        (order m.groups g).1 ((values-get (λ (x : Group). x.gid) g m.groups h.groups).1 at) in
      let other = find-none (λ (x : Group). x.name_arc == name) (values m.groups) g e here in
      ground arith
