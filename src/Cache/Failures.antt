-- ===== src/Cache/Failures.antt =====
-- cache.rs: what becomes of a lookup that the system fails to answer.
use rust_users.Prelude.{
  Option, some, List, ℕ, ◌≡◌, ◌≢◌, false, none, ◌∷◌, ◌++◌, [], arith, nat_eq, bytes_eq,
}
use rust_users.Std.Exec.{Exec, ret}
use rust_users.Std.Ffi.{OsString, has_nul, cstring_new}
use rust_users.Std.HashMap.{get, get-insert}
use rust_users.Libc.{Libc, Passwd, Reply, ResultPtr, erange}
use rust_users.Base.Types.{User}
use rust_users.Base.Raw.{passwd_to_user}
use rust_users.Base.Lookup
use rust_users.Base.Lookup.{retry, fetch, finish, convert, initial_size, fuel}
use rust_users.Base.Lookup.Loop.{retry_done}
use rust_users.Cache.{UsersCache, get_user_by_uid, get_user_by_name}
use rust_users.Cache.BiMap.{by_key, by_name}
use rust_users.Cache.BiMap.Closed.{IsClosed, by_key_safe, by_name_safe}
use rust_users.Cache.BiMap.Stable.{by_key_keeps_entry, by_name_keeps_entry}
use rust_users.Cache.BiMap.Steps.{by_key_hit, by_name_hit}

-- A reply that says neither that the buffer is too short nor where a struct is: that there is no
-- such entry, or an error such as `EIO`, `EMFILE` or `EINTR`.
pub record IsNothing {C : Type 0} (reply : Reply C) : Type 0 where
  pub not_erange : reply.code ≢ erange
  pub null : reply.result ≡ ResultPtr.null

fetch_nothing :
    {W : Type 0} (query : ℕ → W → Reply Passwd × W) (w : W)
    → IsNothing (query initial_size w).0
    → fetch query passwd_to_user w ≡ (ret none, (query initial_size w).1)
unfolding fetch convert
fetch_nothing query w h = ground (arith, retry_done query 63 initial_size w h.not_erange, h.null)

module _ (L : Libc) where
  -- The cache after lookups, before each of which the system may have come to any state.
  pub after_uids : List (ℕ × L.World) → UsersCache → UsersCache
  after_uids [] c = c
  after_uids ((uid, v) ∷ calls) c = after_uids calls (get_user_by_uid L uid (c, v)).1.0

  pub after_names : List (OsString × L.World) → UsersCache → UsersCache
  after_names [] c = c
  after_names ((name, v) ∷ calls) c = after_names calls (get_user_by_name L name (c, v)).1.0

  -- Nobody is cached under the ID, or under the name.
  record IsMissingUid (uid : ℕ) (c : UsersCache) : Type 0 where
    closed : IsClosed c.users
    entry : get uid c.users.forward.value ≡ some none

  record IsMissingName (name : OsString) (c : UsersCache) : Type 0 where
    closed : IsClosed c.users
    entry : get name c.users.backward.value ≡ some none

  abbrev name_of : User → OsString
  name_of u = u.name_arc

  abbrev uid_of : User → ℕ
  uid_of u = u.uid

  abbrev ask_uid : ℕ → Exec L.World (Option User)
  ask_uid = Lookup.get_user_by_uid L

  abbrev ask_name : OsString → Exec L.World (Option User)
  ask_name = Lookup.get_user_by_name L

  after_uids-IsMissingUid :
      (uid : ℕ) (calls : List (ℕ × L.World)) (c : UsersCache)
      → IsMissingUid uid c
      → IsMissingUid uid (after_uids calls c)
  unfolding after_uids get_user_by_uid
  after_uids-IsMissingUid uid [] c h = h
  after_uids-IsMissingUid uid ((k, v) ∷ calls) c h =
      after_uids-IsMissingUid uid calls (get_user_by_uid L k (c, v)).1.0 (record {
        closed = (by_key_safe name_of ask_uid k c.users v h.closed).0;
        entry = by_key_keeps_entry name_of uid_of ask_uid ask_name uid k c.users v none h.entry;
      })

  after_names-IsMissingName :
      (name : OsString) (calls : List (OsString × L.World)) (c : UsersCache)
      → IsMissingName name c
      → IsMissingName name (after_names calls c)
  unfolding after_names get_user_by_name
  after_names-IsMissingName name [] c h = h
  after_names-IsMissingName name ((n, v) ∷ calls) c h =
      after_names-IsMissingName name calls (get_user_by_name L n (c, v)).1.0 (record {
        closed = (by_name_safe uid_of ask_name n c.users v h.closed).0;
        entry = by_name_keeps_entry name_of uid_of ask_uid ask_name 0 name n c.users v none h.entry;
      })

  missing_uid_again :
      (uid : ℕ) (c : UsersCache) (v : L.World)
      → IsMissingUid uid c
      → get_user_by_uid L uid (c, v) ≡ (ret none, (c, v))
  unfolding get_user_by_uid
  missing_uid_again uid c v h =
      ground (arith, by_key_hit c.users v h.closed name_of ask_uid uid {r = none} h.entry)

  missing_name_again :
      (name : OsString) (c : UsersCache) (v : L.World)
      → IsMissingName name c
      → get_user_by_name L name (c, v) ≡ (ret none, (c, v))
  unfolding get_user_by_name
  missing_name_again name c v h = ground (
    arith,
    by_name_hit c.users v h.closed uid_of ask_name name {r = none} (ground (arith, h.entry)),
  )

  module _ (c : UsersCache) (w : L.World) (h : IsClosed c.users) where
    uid_failed :
        (uid : ℕ)
        → get uid c.users.forward.value ≡ none
        → IsNothing (L.getpwuid_r uid initial_size w).0
        → let (r, (c', _)) = get_user_by_uid L uid (c, w) in (r ≡ ret none) × IsMissingUid uid c'
    unfolding get_user_by_uid by_key Lookup.get_user_by_uid
    uid_failed uid new q =
        let free = h.forward_free in
        let p = fetch_nothing (L.getpwuid_r uid) w q in
        let f = get-insert uid uid none c.users.forward.value in
        (
          ground arith,
          record { closed = (by_key_safe name_of ask_uid uid c.users w h).0; entry = ground arith },
        )

    name_failed :
        (username : OsString)
        → get username c.users.backward.value ≡ none
        → has_nul username ≡ false
        → IsNothing (L.getpwnam_r (username ++ 0 ∷ []) initial_size w).0
        → let (r, (c', _)) = get_user_by_name L username (c, w) in
          (r ≡ ret none) × IsMissingName username c'
    unfolding get_user_by_name by_name Lookup.get_user_by_name cstring_new
    name_failed username new plain q =
        let free = h.backward_free in
        let p = fetch_nothing (L.getpwnam_r (username ++ 0 ∷ [])) w q in
        let b = get-insert username username none c.users.backward.value in
        (
          ground arith,
          record {
            closed = (by_name_safe uid_of ask_name username c.users w h).0;
            entry = ground arith;
          },
        )

    -- If the first call of the C library for a user that is not cached comes back without a user, and
    -- with a code other than `ERANGE`, be it an error or not, the lookup returns `None`. If it was by
    -- ID, then after any further lookups of users by ID, with the system in any state before each, the
    -- lookup by this ID still returns `None` and leaves the system and the cache as they are. If it was
    -- by a name without zero byte, the same holds of the name after any further lookups by name.
    pub failures_are_kept :
        (uid : ℕ) (username : OsString)
        → get uid c.users.forward.value ≡ none
        → get username c.users.backward.value ≡ none
        → has_nul username ≡ false
        → IsNothing (L.getpwuid_r uid initial_size w).0
        → IsNothing (L.getpwnam_r (username ++ 0 ∷ []) initial_size w).0
        → (let (r, (c', _)) = get_user_by_uid L uid (c, w) in
            (r ≡ ret none)
            × ((calls : List (ℕ × L.World)) (v : L.World)
                → let d = after_uids calls c' in get_user_by_uid L uid (d, v) ≡ (ret none, (d, v))))
          × (let (r, (c', _)) = get_user_by_name L username (c, w) in
              (r ≡ ret none)
              × ((calls : List (OsString × L.World)) (v : L.World)
                  → let d = after_names calls c' in
                    get_user_by_name L username (d, v) ≡ (ret none, (d, v))))
    failures_are_kept uid username new new' plain q q' =
        let (none_by_uid, missing) = uid_failed uid new q in
        let (none_by_name, missing') = name_failed username new' plain q' in
        let c1 = (get_user_by_uid L uid (c, w)).1.0 in
        let c2 = (get_user_by_name L username (c, w)).1.0 in
        (
          (
            none_by_uid,
            λ calls v.
                missing_uid_again uid (after_uids calls c1) v
                  (after_uids-IsMissingUid uid calls c1 missing),
          ),
          (
            none_by_name,
            λ calls v.
                missing_name_again username (after_names calls c2) v
                  (after_names-IsMissingName username calls c2 missing'),
          ),
        )
