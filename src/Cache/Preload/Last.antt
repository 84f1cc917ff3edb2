-- ===== src/Cache/Preload/Last.antt =====
-- cache.rs: `UsersCache::with_all_users` where users of the database share IDs or names.
use mathlib.Core.List.{foldl}
use mathlib.Core.Option
use rust_users.Prelude.{
  ℕ, ◌<◌, ◌≡◌, ◌∙◌, refl, Option, none, some, List, [], ◌∷◌, length, arith, ◌==◌, nat_eq, bytes_eq,
  if◌then◌else◌, Option-cases, inl, inr,
}
use rust_users.Std.Exec.{Exec, ret, pure}
use rust_users.Std.Ffi.{OsString}
use rust_users.Std.HashMap.{get, get-insert}
use rust_users.Libc.{Libc}
use rust_users.Libc.Enumeration.{Enumeration}
use rust_users.Base.Types.{User}
use rust_users.Base.AllUsers.Loop.{AreEntriesOf, for_users_lem}
use rust_users.Base.Lookup
use rust_users.Cache.{
  UsersCache, new, cache_user, with_all_users, get_user_by_uid, get_user_by_name,
}
use rust_users.Cache.BiMap
use rust_users.Cache.BiMap.{by_key, by_name}
use rust_users.Cache.BiMap.Closed.{IsClosed, empty-IsClosed}
use rust_users.Cache.BiMap.Steps.{by_key_hit, by_name_hit, by_key_miss, by_name_miss}
use rust_users.Cache.Preload.{
  Users, add, step, loaded, foldl-add-IsClosed, foldl-step, cache_user-step,
}

-- The last user of the list with the ID, and the last one with the name.
unfoldable pub last_with_uid : ℕ → List User → Option User
last_with_uid uid [] = none
last_with_uid uid (u ∷ us) =
    Option.or_else (last_with_uid uid us) (if uid == u.uid then some u else none)

unfoldable pub last_with_name : OsString → List User → Option User
last_with_name name [] = none
last_with_name name (u ∷ us) =
    Option.or_else (last_with_name name us) (if name == u.name_arc then some u else none)

-- The entry of a map for a key, after what was inserted last.
abbrev held : {A B : Type 0} → (A → B) → Option (Option B) → Option A → Option (Option B)
held f old none = old
held f old (some a) = some (some (f a))

forward_lem :
    (uid : ℕ) (us : List User) (m : Users)
    → get uid (foldl add m us).forward.value
      ≡ held (λ (u : User). u) (get uid m.forward.value) (last_with_uid uid us)
unfolding last_with_uid Option.or_else
forward_lem uid [] m = refl
forward_lem uid (u ∷ us) m =
    ground (arith, forward_lem uid us (add m u), get-insert uid u.uid (some u) m.forward.value)

backward_lem :
    (name : OsString) (us : List User) (m : Users)
    → get name (foldl add m us).backward.value
      ≡ held (λ (u : User). u.uid) (get name m.backward.value) (last_with_name name us)
unfolding last_with_name Option.or_else
backward_lem name [] m = refl
backward_lem name (u ∷ us) m = ground (
  arith,
  backward_lem name us (add m u),
  get-insert name u.name_arc (some u.uid) m.backward.value,
)

-- The answer that a cache has, or else what the system is asked for.
abbrev pub or_asked : {W A : Type 0} → Option A → Exec W A → Exec W A
or_asked (some a) ask = pure a
or_asked none ask = ask

module _ (L : Libc) (us : List User) where
  loaded-IsClosed : IsClosed (loaded us).users
  loaded-IsClosed = foldl-add-IsClosed us BiMap.empty empty-IsClosed

  loaded_by_uid :
      (uid : ℕ) (v : L.World)
      → let (r, (_, v')) = get_user_by_uid L uid (loaded us, v) in
        (r, v') ≡ or_asked (Option.map some (last_with_uid uid us)) (Lookup.get_user_by_uid L uid) v
  unfolding get_user_by_uid get
  loaded_by_uid uid v =
      let m = (loaded us).users in
      let entry = forward_lem uid us BiMap.empty in
      let fetch = Lookup.get_user_by_uid L in
      elim (Option-cases (last_with_uid uid us)) [
        | inl missing ↦
            let miss =
              by_key_miss m v loaded-IsClosed (λ (u : User). u.name_arc) fetch uid
                (ground (arith, entry, missing)) in
            ground (arith, miss, missing)
        | inr (u, found) ↦
            let hit =
              by_key_hit m v loaded-IsClosed (λ (u : User). u.name_arc) fetch uid {r = some u}
                (ground (arith, entry, found)) in
            ground (arith, hit, found)
      ]

  loaded_by_name :
      (name : OsString) (v : L.World)
      → let (r, (_, v')) = get_user_by_name L name (loaded us, v) in
        (r, v')
        ≡ or_asked
            (Option.map (λ (u : User). last_with_uid u.uid us) (last_with_name name us))
            (Lookup.get_user_by_name L name)
            v
  unfolding get_user_by_name get
  loaded_by_name name v =
      let m = (loaded us).users in
      let entry = backward_lem name us BiMap.empty in
      let fetch = Lookup.get_user_by_name L in
      elim (Option-cases (last_with_name name us)) [
        | inl missing ↦
            let miss =
              by_name_miss m v loaded-IsClosed (λ (u : User). u.uid) fetch name
                (ground (arith, entry, missing)) in
            ground (arith, miss, missing)
        | inr (u, named) ↦
            let keyed = forward_lem u.uid us BiMap.empty in
            elim (Option-cases (last_with_uid u.uid us)) [
              | inl missing ↦ absurd (
                  loaded-IsClosed.indexed name u.uid (ground (arith, entry, named))
                    (ground (arith, keyed, missing)))
              | inr (x, found) ↦
                  let hit =
                    by_name_hit m v loaded-IsClosed (λ (u : User). u.uid) fetch name {r = some x}
                      (ground (arith, entry, named, keyed, found)) in
                  ground (arith, hit, named, found)
            ]
      ]

  -- For a database whose entries are those of given users, with more fuel than users, and even if
  -- users share an ID or a name: the cache is made, and its map of users satisfies the invariant. By
  -- ID it answers with the last user that has the ID. By name it takes the last user that has the
  -- name, and answers with the last one that has the ID of that one. In both cases the world stays
  -- as it is. For other IDs and names the result and the world are those of asking the system.
  pub last_user_answers :
      (N : Enumeration L) (fuel : ℕ) (w : L.World)
      → AreEntriesOf (N.entries w) us
      → length us < fuel
      → (c : UsersCache) × ((with_all_users L fuel w).0 ≡ ret c)
        × IsClosed c.users
        × ((uid : ℕ) (v : L.World)
            → let (r, (_, v')) = get_user_by_uid L uid (c, v) in
              (r, v')
              ≡ or_asked (Option.map some (last_with_uid uid us)) (Lookup.get_user_by_uid L uid) v)
        × ((name : OsString) (v : L.World)
            → let (r, (_, v')) = get_user_by_name L name (c, v) in
              (r, v')
              ≡ or_asked
                  (Option.map (λ (u : User). last_with_uid u.uid us) (last_with_name name us))
                  (Lookup.get_user_by_name L name)
                  v)
  unfolding with_all_users
  last_user_answers N fuel w h k =
      let (ended, folded, _) =
        for_users_lem L N step (cache_user L) (λ c. IsClosed c.users) (cache_user-step L) us fuel
          new w h k empty-IsClosed in
      (
        loaded us,
        ground (arith, folded ∙ foldl-step us new),
        loaded-IsClosed,
        loaded_by_uid,
        loaded_by_name,
      )
