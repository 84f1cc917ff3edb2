-- ===== src/Base/GroupLists/Dedup.antt =====
-- `Vec::dedup_by_key`, as base.rs calls it.
use rust_users.Prelude.{ℕ, ◌≡◌, ◌≢◌, ◌↔◌, ◌⊎◌, List, [], ◌∷◌, arith, nat_eq, Any}
use rust_users.Base.GroupLists.{dedup_after, dedup_by_key}

module _ {A : Type 0} (key : A → ℕ) where
  -- No element has the key of the one before it, the first one that of `k`.
  abbrev DiffersFrom : ℕ → List A → Type 0
  DiffersFrom k [] = Unit
  DiffersFrom k (x ∷ xs) = (key x ≢ k) × DiffersFrom (key x) xs

  abbrev pub NoRepeats : List A → Type 0
  NoRepeats [] = Unit
  NoRepeats (x ∷ xs) = DiffersFrom (key x) xs

  abbrev pub HasKey : ℕ → List A → Type 0
  HasKey k = Any λ x. key x ≡ k

  dedup_after-DiffersFrom : (k : ℕ) (xs : List A) → DiffersFrom k (dedup_after key k xs)
  unfolding dedup_after
  dedup_after-DiffersFrom k [] = tt
  dedup_after-DiffersFrom k (x ∷ xs) =
      ground (arith, dedup_after-DiffersFrom k xs, dedup_after-DiffersFrom (key x) xs)

  dedup_after-HasKey :
      (k j : ℕ) (xs : List A)
      → (HasKey j (dedup_after key k xs) → HasKey j xs)
        × (HasKey j xs → (k ≡ j) ⊎ HasKey j (dedup_after key k xs))
  unfolding dedup_after
  dedup_after-HasKey k j [] = (λ h. h, λ h. absurd h)
  dedup_after-HasKey k j (x ∷ xs) =
      ground (arith, dedup_after-HasKey k j xs, dedup_after-HasKey (key x) j xs)

  -- Neighbours that are left have different keys, and exactly the keys of the list are left.
  pub dedup_by_key_lem :
      (xs : List A)
      → NoRepeats (dedup_by_key key xs) × ((j : ℕ) → HasKey j (dedup_by_key key xs) ↔ HasKey j xs)
  unfolding dedup_by_key
  dedup_by_key_lem [] = (tt, λ j. (λ h. h, λ h. h))
  dedup_by_key_lem (x ∷ xs) =
      (dedup_after-DiffersFrom (key x) xs, λ j. ground (arith, dedup_after-HasKey (key x) j xs))
