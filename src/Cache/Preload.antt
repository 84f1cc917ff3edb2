-- ===== src/Cache/Preload.antt =====
-- cache.rs: `UsersCache::with_all_users`, and lookups in the cache that it makes.
pub mod Last
use mathlib.Core.List.{foldl}
use rust_users.Prelude.{
  ℕ, ◌<◌, ◌≡◌, ◌≢◌, ◌∙◌, refl, some, List, [], ◌∷◌, All, length, arith, nat_eq, bytes_eq,
}
use rust_users.Std.Exec.{ret}
use rust_users.Std.HashMap.{get, insert, get-insert}
use rust_users.Libc.{Libc}
use rust_users.Libc.Enumeration.{Enumeration}
use rust_users.Base.Types.{User}
use rust_users.Base.AllUsers.Loop.{AreEntriesOf, for_users_lem}
use rust_users.Cache.{
  UsersCache, new, cache_user, with_all_users, get_user_by_uid, get_user_by_name,
}
use rust_users.Base.Lookup
use rust_users.Cache.BiMap
use rust_users.Cache.BiMap.Closed.{IsClosed, empty-IsClosed}
use rust_users.Cache.BiMap.Steps.{by_key_hit, by_name_hit}

abbrev Users : Type 0
Users = BiMap.BiMap ℕ User

-- One round of the loop, where nobody holds a borrow.
abbrev add : Users → User → Users
add m u = record {
  forward = record m.forward { value = insert u.uid (some u) m.forward.value };
  backward = record m.backward { value = insert u.name_arc (some u.uid) m.backward.value };
}

-- No two users share an ID or a name.
abbrev AreDistinct : List User → Type 0
AreDistinct [] = Unit
AreDistinct (u ∷ us) = All (λ v. (v.uid ≢ u.uid) × (v.name_arc ≢ u.name_arc)) us × AreDistinct us

-- The map answers for the user.
record Has (m : Users) (u : User) : Type 0 where
  by_uid : get u.uid m.forward.value ≡ some (some u)
  by_name : get u.name_arc m.backward.value ≡ some (some u.uid)

add-IsClosed : (m : Users) (u : User) → IsClosed m → IsClosed (add m u)
add-IsClosed m u h = record {
  forward_free = h.forward_free;
  backward_free = h.backward_free;
  indexed = λ name key. grind (arith, h.indexed name key, get-insert);
}

foldl-add-IsClosed : (us : List User) (m : Users) → IsClosed m → IsClosed (foldl add m us)
foldl-add-IsClosed [] m h = h
foldl-add-IsClosed (u ∷ us) m h = foldl-add-IsClosed us (add m u) (add-IsClosed m u h)

foldl-add-Has_old :
    (us : List User) (m : Users) (u : User)
    → All (λ v. (v.uid ≢ u.uid) × (v.name_arc ≢ u.name_arc)) us
    → Has m u
    → Has (foldl add m us) u
foldl-add-Has_old [] m u d h = h
foldl-add-Has_old (v ∷ us) m u ((uid, name), d) h = foldl-add-Has_old us (add m v) u d (record {
  by_uid = ground (arith, get-insert u.uid v.uid (some v) m.forward.value, h.by_uid);
  by_name =
      ground (arith, get-insert u.name_arc v.name_arc (some v.uid) m.backward.value, h.by_name);
})

foldl-add-Has : (us : List User) (m : Users) → AreDistinct us → All (Has (foldl add m us)) us
foldl-add-Has [] m d = tt
foldl-add-Has (u ∷ us) m (d, ds) = (
  foldl-add-Has_old us (add m u) u d (record {
    by_uid = ground (arith, get-insert u.uid u.uid (some u) m.forward.value);
    by_name = ground (arith, get-insert u.name_arc u.name_arc (some u.uid) m.backward.value);
  }),
  foldl-add-Has us (add m u) ds,
)

abbrev step : UsersCache → User → UsersCache
step c u = record c { users = add c.users u }

foldl-step :
    (us : List User) (c : UsersCache) → foldl step c us ≡ record c { users = foldl add c.users us }
foldl-step [] c = refl
foldl-step (u ∷ us) c = foldl-step us (step c u)

abbrev loaded : List User → UsersCache
loaded us = record new { users = foldl add BiMap.empty us }

module _ (L : Libc) where
  cache_user-step :
      (u : User) (c : UsersCache) (w : L.World)
      → IsClosed c.users
      → (cache_user L u (c, w) ≡ (ret tt, (step c u, w))) × IsClosed (step c u).users
  cache_user-step u c w h = (
    (let free = h.forward_free in let free' = h.backward_free in ground arith),
    add-IsClosed c.users u h,
  )

  Has-answers :
      (c : UsersCache) (u : User) (v : L.World)
      → IsClosed c.users
      → Has c.users u
      → (get_user_by_uid L u.uid (c, v) ≡ (ret (some u), (c, v)))
        × (get_user_by_name L u.name_arc (c, v) ≡ (ret (some u), (c, v)))
  unfolding get_user_by_uid get_user_by_name
  Has-answers c u v h has = (
    ground (
      arith,
      by_key_hit c.users v h (λ (x : User). x.name_arc) (Lookup.get_user_by_uid L) u.uid has.by_uid,
    ),
    ground (
      arith,
      by_name_hit c.users v h (λ (x : User). x.uid) (Lookup.get_user_by_name L) u.name_arc
          {r = some u} (ground (arith, has.by_name, has.by_uid)),
    ),
  )

  Answers-All :
      (c : UsersCache) (us : List User)
      → IsClosed c.users
      → All (Has c.users) us
      → All
          (λ u.
            (v : L.World)
            → (get_user_by_uid L u.uid (c, v) ≡ (ret (some u), (c, v)))
              × (get_user_by_name L u.name_arc (c, v) ≡ (ret (some u), (c, v))))
          us
  Answers-All c [] h has = tt
  Answers-All c (u ∷ us) h (has, rest) = (λ v. Has-answers c u v h has, Answers-All c us h rest)

  -- For a database whose entries are users that differ in ID and in name, with more fuel than
  -- users: the cache is made, its map of users satisfies the invariant, and it answers for each of
  -- them by ID and by name, in any world, without changing the cache or the world.
  with_all_users_lem :
      (N : Enumeration L) (us : List User) (fuel : ℕ) (w : L.World)
      → AreEntriesOf (N.entries w) us
      → AreDistinct us
      → length us < fuel
      → (c : UsersCache) × ((with_all_users L fuel w).0 ≡ ret c)
        × IsClosed c.users
        × All
            (λ u.
              (v : L.World)
              → (get_user_by_uid L u.uid (c, v) ≡ (ret (some u), (c, v)))
                × (get_user_by_name L u.name_arc (c, v) ≡ (ret (some u), (c, v))))
            us
  unfolding with_all_users
  with_all_users_lem N us fuel w h d k =
      let closed = foldl-add-IsClosed us BiMap.empty empty-IsClosed in
      let (ended, folded, _) =
        for_users_lem L N step (cache_user L) (λ c. IsClosed c.users) (cache_user-step) us fuel new
          w h k empty-IsClosed in
      (
        loaded us,
        ground (arith, folded ∙ foldl-step us new),
        closed,
        Answers-All (loaded us) us closed (foldl-add-Has us BiMap.empty d),
      )
