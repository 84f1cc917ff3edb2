-- ===== src/Std/Sort.antt =====
-- `slice::sort_by` on a key, which is documented to be stable. Any stable sort computes the same
-- function; this one inserts.
use mathlib.Core.List.{Perm}
use mathlib.Core.List.Perm
use rust_users.Prelude.{
  ℕ, ◌≤◌, ◌≡◌, ◌↔◌, Any, ltb, List, [], ◌∷◌, Bool-cases, inl, inr, arith, ◌==◌, nat_eq,
  if◌then◌else◌,
}

-- `Vec::retain`, of the elements with one key.
abbrev with_key {ℓ} : {A : Type ℓ} → (A → ℕ) → ℕ → List A → List A
with_key key k [] = []
with_key key k (x ∷ xs) = let rest = with_key key k xs in if key x == k then x ∷ rest else rest

module _ {A : Type 0} (key : A → ℕ) where
  -- In front of the elements with the same key.
  insert_sorted : A → List A → List A
  insert_sorted x [] = x ∷ []
  insert_sorted x (y ∷ ys) = if ltb (key y) (key x) then y ∷ insert_sorted x ys else x ∷ y ∷ ys

  pub sort_by : List A → List A
  unfolding insert_sorted
  sort_by [] = []
  sort_by (x ∷ xs) = insert_sorted x (sort_by xs)

  -- The keys do not fall, from `k` on.
  abbrev IsFrom : ℕ → List A → Type 0
  IsFrom k [] = Unit
  IsFrom k (x ∷ xs) = (k ≤ key x) × IsFrom (key x) xs

  abbrev pub IsAscending : List A → Type 0
  IsAscending xs = IsFrom 0 xs

  insert_sorted-IsFrom :
      (k : ℕ) (x : A) (xs : List A) → k ≤ key x → IsFrom k xs → IsFrom k (insert_sorted x xs)
  unfolding insert_sorted
  insert_sorted-IsFrom k x [] h g = ground arith
  insert_sorted-IsFrom k x (y ∷ ys) h g =
      ground (arith, λ (i : key y ≤ key x). insert_sorted-IsFrom (key y) x ys i g.1)

  pub sort_by-IsAscending : (xs : List A) → IsAscending (sort_by xs)
  unfolding sort_by
  sort_by-IsAscending [] = tt
  sort_by-IsAscending (x ∷ xs) =
      insert_sorted-IsFrom 0 x (sort_by xs) (omega arith) (sort_by-IsAscending xs)

  insert_sorted-perm : (x : A) (xs : List A) → Perm (insert_sorted x xs) (x ∷ xs)
  unfolding insert_sorted
  insert_sorted-perm x [] = Perm.rfl
  insert_sorted-perm x (y ∷ ys) = elim (Bool-cases (ltb (key y) (key x))) [
    | inl e ↦ rw e (Perm.trans (Perm.cons y (insert_sorted-perm x ys)) (Perm.swap x y ys))
    | inr e ↦ rw e Perm.rfl
  ]

  pub sort_by-perm : (xs : List A) → Perm (sort_by xs) xs
  unfolding sort_by
  sort_by-perm [] = Perm.rfl
  sort_by-perm (x ∷ xs) =
      Perm.trans (insert_sorted-perm x (sort_by xs)) (Perm.cons x (sort_by-perm xs))

  insert_sorted-with_key :
      (k : ℕ) (x : A) (xs : List A) → with_key key k (insert_sorted x xs) ≡ with_key key k (x ∷ xs)
  unfolding insert_sorted
  insert_sorted-with_key k x [] = ground arith
  insert_sorted-with_key k x (y ∷ ys) = ground (arith, insert_sorted-with_key k x ys)

  -- Stability: the elements with one key keep their order.
  sort_by-with_key : (k : ℕ) (xs : List A) → with_key key k (sort_by xs) ≡ with_key key k xs
  unfolding sort_by
  sort_by-with_key k [] = ground arith
  sort_by-with_key k (x ∷ xs) =
      ground (arith, insert_sorted-with_key k x (sort_by xs), sort_by-with_key k xs)

  insert_sorted-Any :
      (P : A → Type 0) (x : A) (xs : List A) → Any P (insert_sorted x xs) ↔ Any P (x ∷ xs)
  unfolding insert_sorted
  insert_sorted-Any P x [] = ground arith
  insert_sorted-Any P x (y ∷ ys) = ground (arith, insert_sorted-Any P x ys)

  pub sort_by-Any : (P : A → Type 0) (xs : List A) → Any P (sort_by xs) ↔ Any P xs
  unfolding sort_by
  sort_by-Any P [] = ground arith
  sort_by-Any P (x ∷ xs) = ground (arith, insert_sorted-Any P x (sort_by xs), sort_by-Any P xs)
