-- ===== src/Cache/BiMap/Cross.antt =====
-- The two directions of a map together.
use rust_users.Prelude.{◌≡◌, ◌≢◌, ◌∙◌, sym, Option, none, some, arith, Eq, bytes_eq}
use rust_users.Std.Exec.{Exec, ret}
use rust_users.Std.Ffi.{OsString}
use rust_users.Std.HashMap.{get, get-insert}
use rust_users.Cache.BiMap.{BiMap, by_key, by_name}
use rust_users.Cache.BiMap.Closed.{IsClosed, cached_name, by_key_safe, by_name_safe}
use rust_users.Cache.BiMap.Steps.{by_key_hit, by_name_hit}

module _ {K V W : Type 0} ⦃e : Eq K⦄ (name_of : V → OsString) (key_of : V → K)
    (key_fetch : K → Exec W (Option V)) (name_fetch : OsString → Exec W (Option V)) where
  by_key_caches_name :
      (key : K) (m : BiMap K V) (w : W) {v : V}
      → IsClosed m
      → get key m.forward.value ≡ none
      → (by_key name_of key_fetch key (m, w)).0 ≡ ret (some v)
      → cached_name (name_of v) (by_key name_of key_fetch key (m, w)).1.0 ≡ some (some v)
  unfolding by_key
  by_key_caches_name key m w h new p = grind (arith, get-insert)

  by_name_caches_key :
      (name : OsString) (m : BiMap K V) (w : W) {v : V}
      → IsClosed m
      → get name m.backward.value ≡ none
      → (by_name key_of name_fetch name (m, w)).0 ≡ ret (some v)
      → get (key_of v) (by_name key_of name_fetch name (m, w)).1.0.forward.value ≡ some (some v)
  unfolding by_name
  by_name_caches_key name m w h new p = grind (arith, get-insert)

  -- In a map whose cells are free and whose names lead to cached keys, a value that a lookup by a
  -- new key fetches is then returned for its own name, and that lookup changes neither the map nor
  -- the system.
  fetched_by_key :
      (key : K) (m : BiMap K V) (w : W) (v : V)
      → IsClosed m
      → get key m.forward.value ≡ none
      → (by_key name_of key_fetch key (m, w)).0 ≡ ret (some v)
      → let s = (by_key name_of key_fetch key (m, w)).1 in
        by_name key_of name_fetch (name_of v) s ≡ (ret (some v), s)
  fetched_by_key key m w v h new p =
      let (m', w') = (by_key name_of key_fetch key (m, w)).1 in
      by_name_hit m' w' (by_key_safe name_of key_fetch key m w h).0 key_of name_fetch (name_of v)
        (by_key_caches_name key m w h new p)

  -- In a map whose cells are free and whose names lead to cached keys, a value that a lookup by a
  -- new name fetches is then returned for its own key, and that lookup changes neither the map nor
  -- the system.
  fetched_by_name :
      (name : OsString) (m : BiMap K V) (w : W) (v : V)
      → IsClosed m
      → get name m.backward.value ≡ none
      → (by_name key_of name_fetch name (m, w)).0 ≡ ret (some v)
      → let s = (by_name key_of name_fetch name (m, w)).1 in
        by_key name_of key_fetch (key_of v) s ≡ (ret (some v), s)
  fetched_by_name name m w v h new p =
      let (m', w') = (by_name key_of name_fetch name (m, w)).1 in
      by_key_hit m' w' (by_name_safe key_of name_fetch name m w h).0 name_of key_fetch (key_of v)
        (by_name_caches_key name m w h new p)

  second_name_replaces :
      (first second : OsString) (m : BiMap K V) (w : W) {v' : V}
      → IsClosed m
      → first ≢ second
      → get first m.backward.value ≡ some (some (key_of v'))
      → get second m.backward.value ≡ none
      → (by_name key_of name_fetch second (m, w)).0 ≡ ret (some v')
      → cached_name first (by_name key_of name_fetch second (m, w)).1.0 ≡ some (some v')
  unfolding by_name
  second_name_replaces first second m w h ne b new p = grind (arith, get-insert)

  by_name_indexes :
      (name : OsString) (m : BiMap K V) (w : W) {v : V}
      → IsClosed m
      → get name m.backward.value ≡ none
      → (by_name key_of name_fetch name (m, w)).0 ≡ ret (some v)
      → (get name (by_name key_of name_fetch name (m, w)).1.0.backward.value
          ≡ some (some (key_of v)))
        × ((other : OsString)
            → other ≢ name
            → get other (by_name key_of name_fetch name (m, w)).1.0.backward.value
              ≡ get other m.backward.value)
  unfolding by_name
  by_name_indexes name m w h new p =
      (grind (arith, get-insert), λ other ne. grind (arith, get-insert))

  -- In a map whose cells are free and whose names lead to cached keys, if two different new names
  -- are looked up, one after the other, and the values found have the same key, then the first name
  -- answers with the value of the second.
  pub two_names_one_key :
      (first second : OsString) (m : BiMap K V) (w : W) (v v' : V)
      → IsClosed m
      → first ≢ second
      → key_of v ≡ key_of v'
      → get first m.backward.value ≡ none
      → get second m.backward.value ≡ none
      → (by_name key_of name_fetch first (m, w)).0 ≡ ret (some v)
      → (by_name key_of name_fetch second (by_name key_of name_fetch first (m, w)).1).0
        ≡ ret (some v')
      → let t = (by_name key_of name_fetch second (by_name key_of name_fetch first (m, w)).1).1 in
        by_name key_of name_fetch first t ≡ (ret (some v'), t)
  two_names_one_key first second m w v v' h ne same new new' p q =
      let (m1, w1) = (by_name key_of name_fetch first (m, w)).1 in
      let (m2, w2) = (by_name key_of name_fetch second (m1, w1)).1 in
      let h1 = (by_name_safe key_of name_fetch first m w h).0 in
      let h2 = (by_name_safe key_of name_fetch second m1 w1 h1).0 in
      let (found, others) = by_name_indexes first m w h new p in
      by_name_hit m2 w2 h2 key_of name_fetch first (
        second_name_replaces first second m1 w1 h1 ne (cc) (others second (λ x. ne (sym x)) ∙ new')
          q)
