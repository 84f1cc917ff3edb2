-- ===== src/Base/Lookup/Results.antt =====
-- What the four lookups return, and where they end.
use rust_users.Prelude.{
  ℕ, ◌*◌, ◌^◌, ◌≤◌, ◌≡◌, ◌≢◌, ◌++◌, [], ◌∷◌, Option, none, some, Option-cases, inl, inr,
  if◌then◌else◌, arith,
}
use rust_users.Std.Exec.{
  Outcome, ret, stop, diverges, capacity_overflow, bind, continue-ne-diverges,
}
use rust_users.Std.Ffi.{OsString, cstring_new, has_nul}
use rust_users.Libc.{Libc, Reply, Query, erange}
use rust_users.Libc.Database.{Serves, Database}
use rust_users.Base.Raw.{passwd_to_user, struct_to_group}
use rust_users.Base.Raw.Strings.{passwd_to_user-ne-diverges, struct_to_group-ne-diverges}
use rust_users.Base.Lookup.{
  retry, convert, finish, fetch, fuel, initial_size, get_user_by_uid, get_user_by_name,
  get_group_by_gid, get_group_by_name,
}
use rust_users.Base.Lookup.Loop.{largest, retry-ne-diverges, retry_never_enough, retry_finds}

-- The record of a database, read.
abbrev pub answer : {C A : Type 0} → (C → Outcome A) → Option C → Outcome (Option A)
answer to none = ret none
answer to (some c) = bind (to c) λ a. ret (some a)

fuel_suffices : largest ≤ initial_size * 2 ^ 63
fuel_suffices = omega arith

module _ {W C A : Type 0} (to : C → Outcome A) where
  finish-ne-diverges :
      (found : Option (Reply C)) (w : W)
      → ((c : C) → to c ≢ diverges)
      → (finish to found w).0 ≢ diverges
  unfolding convert
  finish-ne-diverges none w h = ground arith
  finish-ne-diverges (some reply) w h = ground (arith, h reply.struct)

  fetch-ne-diverges :
      (query : ℕ → W → Reply C × W) (w : W)
      → ((c : C) → to c ≢ diverges)
      → (fetch query to w).0 ≢ diverges
  unfolding fetch
  fetch-ne-diverges query w h =
      let (found, w') = retry query fuel initial_size w in
      continue-ne-diverges found w' (finish to)
        (retry-ne-diverges query 63 initial_size w fuel_suffices) (λ o v. finish-ne-diverges o v h)

  fetch_never_enough :
      (query : ℕ → W → Reply C × W) (w : W)
      → ((n : ℕ) (v : W) → (query n v).0.code ≡ erange)
      → (fetch query to w).0 ≡ stop capacity_overflow
  unfolding fetch
  fetch_never_enough query w h =
      ground (arith, retry_never_enough query 63 initial_size w h (omega arith) fuel_suffices)

  fetch_lem :
      {K : Type 0} {query : Query W K C} {entry : W → K → Option C} {needed : W → K → ℕ} (k : K)
      (w : W)
      → Serves query entry needed
      → needed w k ≤ largest
      → fetch (query k) to w ≡ (answer to (entry w k), w)
  unfolding fetch convert
  fetch_lem {query} {entry} {needed} k w S small =
      let (n, fits, e) =
        retry_finds (query k) (needed w k) 63 initial_size w (λ m. S.keeps k m w)
          (λ m. S.small k m w) (λ m. answers m) small fuel_suffices in
      elim (Option-cases (entry w k)) [
        | inl absent ↦ ground (arith, e, absent, S.absent k n w fits absent)
        | inr (c, found) ↦ ground (arith, e, found, S.found k n w c fits found)
      ]
    where
      answers : (m : ℕ) → needed w k ≤ m → (query k m w).0.code ≢ erange
      answers m fits = elim (Option-cases (entry w k)) [
        | inl absent ↦ (S.absent k m w fits absent).0
        | inr (c, found) ↦ ground (arith, S.found k m w c fits found)
      ]

module _ (L : Libc) where
  -- Whatever the C library answers, each lookup ends.
  pub lookups-ne-diverges :
      (id : ℕ) (name : OsString) (w : L.World)
      → ((get_user_by_uid L id w).0 ≢ diverges)
        × ((get_user_by_name L name w).0 ≢ diverges)
        × ((get_group_by_gid L id w).0 ≢ diverges)
        × ((get_group_by_name L name w).0 ≢ diverges)
  unfolding get_user_by_uid get_user_by_name get_group_by_gid get_group_by_name
  lookups-ne-diverges id name w = elim (Option-cases (cstring_new name)) [
    | inl nul ↦ (
      user_ends id,
      rw (nul, get_user_by_name) (λ p. cc),
      group_ends id,
      rw (nul, get_group_by_name) (λ p. cc),
    )
    | inr (c, e) ↦ (
      user_ends id,
      rw (e, get_user_by_name)
          (fetch-ne-diverges passwd_to_user (L.getpwnam_r c) w passwd_to_user-ne-diverges),
      group_ends id,
      rw (e, get_group_by_name)
          (fetch-ne-diverges struct_to_group (L.getgrnam_r c) w struct_to_group-ne-diverges),
    )
  ]
    where
      user_ends : (uid : ℕ) → (get_user_by_uid L uid w).0 ≢ diverges
      user_ends uid =
          fetch-ne-diverges passwd_to_user (L.getpwuid_r uid) w passwd_to_user-ne-diverges

      group_ends : (gid : ℕ) → (get_group_by_gid L gid w).0 ≢ diverges
      group_ends gid =
          fetch-ne-diverges struct_to_group (L.getgrgid_r gid) w struct_to_group-ne-diverges

  -- If a C library calls every buffer too small, each lookup by ID panics in the allocator, with a
  -- capacity overflow.
  pub lookups_never_enough :
      (id : ℕ) (w : L.World)
      → ((n : ℕ) (v : L.World) → (L.getpwuid_r id n v).0.code ≡ erange)
      → ((n : ℕ) (v : L.World) → (L.getgrgid_r id n v).0.code ≡ erange)
      → ((get_user_by_uid L id w).0 ≡ stop capacity_overflow)
        × ((get_group_by_gid L id w).0 ≡ stop capacity_overflow)
  unfolding get_user_by_uid get_group_by_gid
  lookups_never_enough id w users groups = (
    fetch_never_enough passwd_to_user (L.getpwuid_r id) w users,
    fetch_never_enough struct_to_group (L.getgrgid_r id) w groups,
  )

module _ (L : Libc) (D : Database L) (w : L.World) where
  -- A lookup by ID whose record fits the largest buffer returns `None` if the database holds no
  -- record for the ID, and else what the conversion makes of the record. The world does not change.
  pub lookup_by_id_lem :
      (id : ℕ)
      → D.uid_needs w id ≤ largest
      → D.gid_needs w id ≤ largest
      → (get_user_by_uid L id w ≡ (answer passwd_to_user (D.user_by_uid w id), w))
        × (get_group_by_gid L id w ≡ (answer struct_to_group (D.group_by_gid w id), w))
  unfolding get_user_by_uid get_group_by_gid
  lookup_by_id_lem id us gs = (
    fetch_lem passwd_to_user id w D.serves_uid us,
    fetch_lem struct_to_group id w D.serves_gid gs,
  )

  -- A lookup by name returns `None` for a name with a zero byte. Any other name reaches the C
  -- library with a zero at its end, and if the record fits the largest buffer, the result is `None`
  -- if the database holds no record, and else what the conversion makes of it. The world does not
  -- change.
  pub lookup_by_name_lem :
      (name : OsString)
      → D.name_needs w (name ++ 0 ∷ []) ≤ largest
      → D.groupname_needs w (name ++ 0 ∷ []) ≤ largest
      → (get_user_by_name L name w ≡ (
          if has_nul name
          then (ret none, w)
          else (answer passwd_to_user (D.user_by_name w (name ++ 0 ∷ [])), w)))
        × (get_group_by_name L name w ≡ (
            if has_nul name
            then (ret none, w)
            else (answer struct_to_group (D.group_by_name w (name ++ 0 ∷ [])), w)))
  unfolding get_user_by_name get_group_by_name cstring_new
  lookup_by_name_lem name us gs =
      let users = fetch_lem passwd_to_user (name ++ 0 ∷ []) w D.serves_name us in
      let groups = fetch_lem struct_to_group (name ++ 0 ∷ []) w D.serves_groupname gs in
      (ground (arith, users), ground (arith, groups))
