-- ===== src/Cache/BiMap/Closed.antt =====
-- The invariant of a map: nobody holds a borrow, and every ID that a name leads to is a key.
use rust_users.Prelude.{
  ◌≡◌, refl, ◌≢◌, ◌⊎◌, false, Option, none, some, arith, Eq, bytes_eq, Option-cases, inl, inr,
}
use rust_users.Std.Exec.{Exec, ret}
use rust_users.Std.Ffi.{OsString}
use rust_users.Std.HashMap.{get, get-insert}
use rust_users.Cache.BiMap.{BiMap, empty, by_key, by_name}

-- What a map holds for a name: `none` if nothing, else the answer that it gives.
abbrev pub cached_name : {K V : Type 0} ⦃e : Eq K⦄ → OsString → BiMap K V → Option (Option V)
cached_name name m = elim (get name m.backward.value) [
  | none ↦ none
  | some none ↦ some none
  | some (some key) ↦ get key m.forward.value
]

module _ {K V : Type 0} ⦃e : Eq K⦄ where
  pub record IsClosed (m : BiMap K V) : Type 0 where
    pub forward_free : m.forward.borrowed ≡ false
    pub backward_free : m.backward.borrowed ≡ false
    pub indexed :
        (name : OsString) (key : K)
        → get name m.backward.value ≡ some (some key)
        → get key m.forward.value ≢ none

  -- Every entry of the first map has an entry of the second.
  pub record Grows (m n : BiMap K V) : Type 0 where
    pub forward : (key : K) → get key m.forward.value ≢ none → get key n.forward.value ≢ none
    pub backward :
        (name : OsString) → get name m.backward.value ≢ none → get name n.backward.value ≢ none

  pub empty-IsClosed : IsClosed empty
  unfolding get
  empty-IsClosed = record { forward_free = refl; backward_free = refl; indexed = λ name key h. cc }

  module _ {W : Type 0} (name_of : V → OsString) (fetch : K → Exec W (Option V)) where
    by_key-IsClosed :
        (key : K) (m : BiMap K V) (w : W)
        → IsClosed m
        → IsClosed (by_key name_of fetch key (m, w)).1.0
    unfolding by_key
    by_key-IsClosed key m w h = record {
      forward_free = ground arith;
      backward_free = ground arith;
      indexed = λ name j. grind (arith, h.indexed name j, get-insert);
    }

    by_key-Grows : (key : K) (m : BiMap K V) (w : W) → Grows m (by_key name_of fetch key (m, w)).1.0
    unfolding by_key
    by_key-Grows key m w = record {
      forward = λ j. grind (arith, get-insert);
      backward = λ name. grind (arith, get-insert);
    }

    by_key_outcome :
        (key : K) (m : BiMap K V) (w : W)
        → IsClosed m
        → ((by_key name_of fetch key (m, w)).0 ≡ (fetch key w).0)
          ⊎ ((r : Option V) × (get key m.forward.value ≡ some r)
              × ((by_key name_of fetch key (m, w)).0 ≡ ret r))
    unfolding by_key
    by_key_outcome key m w h = elim (Option-cases (get key m.forward.value)) [
      | inl e ↦ inl (ground arith)
      | inr (r, e) ↦ inr (r, e, ground arith)
    ]

    -- A lookup by key, as `lookups_safe` has it.
    pub by_key_safe :
        (key : K) (m : BiMap K V) (w : W)
        → IsClosed m
        → let (result, (m', _)) = by_key name_of fetch key (m, w) in
          IsClosed m'
          × Grows m m'
          × ((result ≡ (fetch key w).0)
              ⊎ ((r : Option V) × (get key m.forward.value ≡ some r) × (result ≡ ret r)))
    by_key_safe key m w h =
        (by_key-IsClosed key m w h, by_key-Grows key m w, by_key_outcome key m w h)

  module _ {W : Type 0} (key_of : V → K) (fetch : OsString → Exec W (Option V)) where
    by_name-IsClosed :
        (name : OsString) (m : BiMap K V) (w : W)
        → IsClosed m
        → IsClosed (by_name key_of fetch name (m, w)).1.0
    unfolding by_name
    by_name-IsClosed name m w h = record {
      forward_free = ground arith;
      backward_free = ground arith;
      indexed = λ other j. grind (arith, h.indexed other j, get-insert);
    }

    by_name-Grows :
        (name : OsString) (m : BiMap K V) (w : W) → Grows m (by_name key_of fetch name (m, w)).1.0
    unfolding by_name
    by_name-Grows name m w = record {
      forward = λ j. grind (arith, get-insert);
      backward = λ other. grind (arith, get-insert);
    }

    by_name_outcome :
        (name : OsString) (m : BiMap K V) (w : W)
        → IsClosed m
        → ((by_name key_of fetch name (m, w)).0 ≡ (fetch name w).0)
          ⊎ ((r : Option V) × (cached_name name m ≡ some r)
              × ((by_name key_of fetch name (m, w)).0 ≡ ret r))
    unfolding by_name
    by_name_outcome name m w h = elim (Option-cases (get name m.backward.value)) [
      | inl e ↦ inl (ground arith)
      | inr (none, e) ↦ inr (none, ground arith, ground arith)
      | inr (some key, e) ↦ elim (Option-cases (get key m.forward.value)) [
        | inl absent ↦ absurd (h.indexed name key e absent)
        | inr (r, p) ↦ inr (r, ground arith, ground arith)
      ]
    ]

    -- A lookup by name.
    pub by_name_safe :
        (name : OsString) (m : BiMap K V) (w : W)
        → IsClosed m
        → let (result, (m', _)) = by_name key_of fetch name (m, w) in
          IsClosed m'
          × Grows m m'
          × ((result ≡ (fetch name w).0)
              ⊎ ((r : Option V) × (cached_name name m ≡ some r) × (result ≡ ret r)))
    by_name_safe name m w h =
        (by_name-IsClosed name m w h, by_name-Grows name m w, by_name_outcome name m w h)

  -- Whatever the system does, a lookup by key or by name, in a map whose cells are free and whose
  -- names lead to cached keys, ends as asking the system ends, or returns what was cached for the
  -- key or the name. So no borrow fails, and `forward[&key]` is not indexed with a missing key. The
  -- map stays such a map and keeps every entry.
  pub lookups_safe :
      {W : Type 0} (name_of : V → OsString) (key_of : V → K) (key_fetch : K → Exec W (Option V))
      (name_fetch : OsString → Exec W (Option V)) (key : K) (name : OsString) (m : BiMap K V)
      (w : W)
      → IsClosed m
      → (let (result, (m', _)) = by_key name_of key_fetch key (m, w) in
          IsClosed m'
          × Grows m m'
          × ((result ≡ (key_fetch key w).0)
              ⊎ ((r : Option V) × (get key m.forward.value ≡ some r) × (result ≡ ret r))))
        × (let (result, (m', _)) = by_name key_of name_fetch name (m, w) in
            IsClosed m'
            × Grows m m'
            × ((result ≡ (name_fetch name w).0)
                ⊎ ((r : Option V) × (cached_name name m ≡ some r) × (result ≡ ret r))))
  lookups_safe name_of key_of key_fetch name_fetch key name m w h =
      (by_key_safe name_of key_fetch key m w h, by_name_safe key_of name_fetch name m w h)
