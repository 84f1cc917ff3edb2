-- ===== src/Std/HashMap.antt =====
-- `HashMap`, as a list of entries with one entry for each key. The order in which a map iterates is
-- not that of the list: code that walks over a map takes its order as a parameter.
use rust_users.Prelude.{◌≡◌, Option, none, some, List, [], ◌∷◌, arith, Eq, ◌==◌, if◌then◌else◌}

abbrev pub HashMap {ℓ κ} : Type ℓ → Type κ → Type (ℓ ⊔ κ)
HashMap K V = List (K × V)

module _ {ℓ κ} {K : Type ℓ} {V : Type κ} ⦃e : Eq K⦄ where
  -- `map.get(&key)`
  unfoldable pub get : K → HashMap K V → Option V
  get key [] = none
  get key ((k, v) ∷ m) = if key == k then some v else get key m

  -- `map.insert(key, value)`, the map that it leaves
  unfoldable pub insert : K → V → HashMap K V → HashMap K V
  insert key value [] = (key, value) ∷ []
  insert key value ((k, v) ∷ m) = if key == k then (key, value) ∷ m else (k, v) ∷ insert key value m

  pub get-insert :
      (j k : K) (v : V) (m : HashMap K V)
      → get j (insert k v m) ≡ (if j == k then some v else get j m)
  unfolding get insert
  get-insert j k v [] = ground arith
  get-insert j k v (x ∷ m) = ground (arith, get-insert j k v m)
