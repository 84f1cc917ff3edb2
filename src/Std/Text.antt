-- ===== src/Std/Text.antt =====
-- Decimal numbers as `{}` prints them, and reading them back.
use Prim.Native.Nat.{◌/◌, ◌%◌}
use mathlib.Core.List.{foldl}
use rust_users.Prelude.{
  ℕ, zero, suc, ◌+◌, ◌-◌, ◌*◌, ◌<◌, ◌≤◌, ◌≡◌, refl, ltb, List, [], ◌∷◌, ◌++◌, All, arith,
  Bool-cases, inl, inr, if◌then◌else◌,
}

-- The digits of a number, on fuel.
digits : ℕ → ℕ → List ℕ
digits zero n = []
digits (suc fuel) n =
    let high = digits fuel (n / 10) in
    if ltb n 10 then (48 + n) ∷ [] else high ++ (48 + n % 10) ∷ []

-- A number has fewer digits than one more than itself.
unfoldable pub decimal : ℕ → List ℕ
unfolding digits
decimal n = digits (suc n) n

abbrev pub value : List ℕ → ℕ
value = foldl (λ n d. n * 10 + (d - 48)) 0

value-append_from :
    (ds : List ℕ) (d n : ℕ)
    → foldl (λ n d. n * 10 + (d - 48)) n (ds ++ d ∷ [])
      ≡ foldl (λ n d. n * 10 + (d - 48)) n ds * 10 + (d - 48)
value-append_from [] d n = refl
value-append_from (c ∷ cs) d n = value-append_from cs d (n * 10 + (c - 48))

value-digits : (fuel n : ℕ) → n < fuel → value (digits fuel n) ≡ n
unfolding digits
value-digits zero n h = absurd (omega arith)
value-digits (suc fuel) n h = elim (Bool-cases (ltb n 10)) [
  | inl e ↦ ground arith
  | inr e ↦
      let ih = value-digits fuel (n / 10) (ground arith) in
      ground (arith, ih, value-append_from (digits fuel (n / 10)) (48 + n % 10) 0)
]

pub value-decimal : (n : ℕ) → value (decimal n) ≡ n
unfolding decimal
value-decimal n = value-digits (suc n) n (omega arith)

-- A digit, as a byte.
abbrev pub IsDigit : ℕ → Type 0
IsDigit d = (48 ≤ d) × (d < 58)

All-append : (P : ℕ → Type 0) (xs : List ℕ) (y : ℕ) → All P xs → P y → All P (xs ++ y ∷ [])
All-append P [] y h p = (p, tt)
All-append P (x ∷ xs) y (q, h) p = (q, All-append P xs y h p)

digits-All : (fuel n : ℕ) → All IsDigit (digits fuel n)
unfolding digits
digits-All zero n = tt
digits-All (suc fuel) n = elim (Bool-cases (ltb n 10)) [
  | inl e ↦ ground arith
  | inr e ↦ rw e (
      All-append IsDigit (digits fuel (n / 10)) (48 + n % 10) (digits-All fuel (n / 10))
        (omega arith, omega arith))
]

pub decimal-All : (n : ℕ) → All IsDigit (decimal n)
unfolding decimal
decimal-All n = digits-All (suc n) n
