-- ===== src/Mock/Table.antt =====
-- A table whose values stand under their own IDs, one for each ID, and a search through its values
-- in any order.
use rust_users.Prelude.{
  ℕ, ◌≡◌, ◌↔◌, inl, inr, refl, ap, Bool, true, false, none, some, Option-cases, List, [], ◌∷◌,
  arith, Any, nat_eq, bytes_eq, if◌then◌else◌, Option-cases,
}
use rust_users.Std.HashMap.{HashMap, get, insert, get-insert}
use rust_users.Mock.{find}

module _ {V : Type 0} (id_of : V → ℕ) where
  abbrev pub IsTable : HashMap ℕ V → Type 0
  IsTable [] = Unit
  IsTable ((k, v) ∷ m) = (id_of v ≡ k) × (get k m ≡ none) × IsTable m

  pub insert-IsTable : (v : V) (m : HashMap ℕ V) → IsTable m → IsTable (insert (id_of v) v m)
  unfolding insert get
  insert-IsTable v [] h = (refl, refl, tt)
  insert-IsTable v ((k, u) ∷ m) (own, fresh, h) =
      ground (arith, insert-IsTable v m h, get-insert k (id_of v) v m)

  -- The values of a table are what its IDs lead to.
  pub values-get :
      (v : V) (m : HashMap ℕ V)
      → IsTable m
      → Any (λ (e : ℕ × V). e.1 ≡ v) m ↔ (get (id_of v) m ≡ some v)
  unfolding get
  values-get v [] h = (λ p. absurd p, λ p. cc)
  values-get v ((k, u) ∷ m) (own, fresh, h) = (
    λ p. elim p [
      | inl e ↦ ground (arith, ap id_of e)
      | inr q ↦ ground (arith, (values-get v m h).0 q)
    ],
    λ p. ground (arith, (values-get v m h).1),
  )

-- An order of the values: it has the values of the map and no others.
abbrev pub IsOrder : {V : Type 0} → (HashMap ℕ V → List V) → Type 0
IsOrder {V} values =
    (m : HashMap ℕ V) (v : V) → Any (λ x. x ≡ v) (values m) ↔ Any (λ (e : ℕ × V). e.1 ≡ v) m

module _ {A : Type 0} (p : A → Bool) where
  pub find-some : (xs : List A) (x : A) → find p xs ≡ some x → Any (λ y. y ≡ x) xs × (p x ≡ true)
  unfolding find
  find-some [] x h = absurd (ground arith)
  find-some (y ∷ xs) x h = ground (arith, find-some xs x)

  pub find-none : (xs : List A) (x : A) → find p xs ≡ none → Any (λ y. y ≡ x) xs → p x ≡ false
  unfolding find
  find-none [] x h k = absurd k
  find-none (y ∷ xs) x h k = ground (arith, find-none xs x)

-- A search through a map with one entry.
pub find_one :
    {V : Type 0} (values : HashMap ℕ V → List V) (p : V → Bool) (k : ℕ) (v : V)
    → IsOrder values
    → find p (values ((k, v) ∷ [])) ≡ (if p v then some v else none)
find_one {V} values p k v order =
    let m : HashMap ℕ V = (k, v) ∷ [] in
    elim (Option-cases (find p (values m))) [
      | inl e ↦ ground (arith, e, find-none p (values m) v e ((order m v).1 (inl refl)))
      | inr (x, e) ↦
          let (here, holds) = find-some p (values m) x e in
          ground (arith, e, holds, (order m x).0 here)
    ]
