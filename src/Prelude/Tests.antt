-- ===== src/Prelude/Tests.antt =====
-- Boolean tests, the conditional, and equality by instances.
use Prim.Native.Nat.{ℕ, compare, Ordering}
use mathlib.Core.Path.{◌≡◌, refl, ap}
use mathlib.Core.Logic.{◌⊎◌, inl, inr, ite}
use mathlib.Core.Bool.{Bool, true, false}
use mathlib.Core.Option.{Option, none, some}
use mathlib.Core.List.{List}
use native.Mathlib.Decide.{ℕ_discrete}

-- These compute to `compare`, which `ground` reads with no lemma listed.
abbrev pub ltb : ℕ → ℕ → Bool
ltb a b = elim (compare a b) [ Ordering.lt ↦ true | _ ↦ false ]

infix 1 if◌then◌else◌
abbrev pub if◌then◌else◌ {ℓ} : {A : Type ℓ} → Bool → A → A → A
if true then x else y = x
if false then x else y = y

-- Rust's `PartialEq`, for the types that it is derived for.
pub record Eq {ℓ} (A : Type ℓ) : Type ℓ where
  pub dec : Discrete A

infix 50 ◌==◌
abbrev pub ◌==◌ {ℓ} : {A : Type ℓ} ⦃e : Eq A⦄ → A → A → Bool
◌==◌ ⦃e⦄ a b = ite (e.dec a b) true false

instance unfoldable pub nat_eq : Eq ℕ
unfolding ℕ_discrete
nat_eq = record { dec = ℕ_discrete }

bytes_discrete : Discrete (List ℕ)
bytes_discrete = hlevel ℕ_discrete

instance pub bytes_eq : Eq (List ℕ)
unfolding bytes_discrete ℕ_discrete
bytes_eq = record { dec = bytes_discrete }

Option_discrete : {A : Type 0} → Discrete A → Discrete (Option A)
Option_discrete d none none = yes refl
Option_discrete d none (some b) = no (λ e. cc)
Option_discrete d (some a) none = no (λ e. cc)
Option_discrete d (some a) (some b) = elim (d a b) [
  | yes e ↦ yes (ap some e)
  | no n ↦ no (λ e. n (cc))
]

instance pub option_eq : {A : Type 0} ⦃e : Eq A⦄ → Eq (Option A)
unfolding Option_discrete
option_eq ⦃e⦄ = record { dec = Option_discrete e.dec }

pub Bool-cases : (b : Bool) → (b ≡ true) ⊎ (b ≡ false)
Bool-cases true = inl refl
Bool-cases false = inr refl

pub Option-cases {ℓ} : {A : Type ℓ} (o : Option A) → (o ≡ none) ⊎ ((a : A) × (o ≡ some a))
Option-cases none = inl refl
Option-cases (some a) = inr (a, refl)
