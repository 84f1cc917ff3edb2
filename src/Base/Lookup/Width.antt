-- ===== src/Base/Lookup/Width.antt =====
-- base.rs: the loop of a lookup on targets where `usize` is narrower.
use rust_users.Prelude.{
  ℕ, zero, suc, ◌+◌, ◌*◌, ◌≤◌, ◌<◌, ◌≡◌, ◌≢◌, ◌⊎◌, inl, inr, refl, ltb, true, false, Option, none,
  some, ◌==◌, nat_eq, if◌then◌else◌, arith,
}
use native.Mathlib.Decide.{dec_le, ℕ_discrete}
use rust_users.Std.Exec.{
  Exec, Outcome, ret, stop, diverges, capacity_overflow, pure, throw, call, ◌>>=◌,
}
use rust_users.Libc.{Reply, erange}
use rust_users.Base.Lookup.{retry, fetch, finish, isize_max, initial_size, fuel}
use rust_users.Base.Lookup.Loop.{retry_done, retry_again}

-- `usize::checked_mul` and `Vec::resize` on a target where `isize::MAX` is the first argument.
checked_mul_at : ℕ → ℕ → ℕ → Option ℕ
checked_mul_at max a b = if ltb (a * b) (2 * (max + 1)) then some (a * b) else none

resize_at : {W : Type 0} → ℕ → ℕ → Exec W ℕ
resize_at max newsize = if ltb max newsize then throw capacity_overflow else pure newsize

module _ {W C : Type 0} (max : ℕ) (query : ℕ → W → Reply C × W) where
  retry_at : ℕ → ℕ → Exec W (Option (Reply C))
  unfolding checked_mul_at resize_at
  retry_at zero len = λ w. (diverges, w)
  retry_at (suc rounds) len = do
    reply ← call (query len)
    elim (reply.code == erange) [
      | true ↦ elim (checked_mul_at max len 2) [
        | none ↦ pure none
        | some newsize ↦ do size ← resize_at max newsize; retry_at rounds size
      ]
      | false ↦ pure (some reply)
    ]

  pub fetch_at : {A : Type 0} → (C → Outcome A) → Exec W (Option A)
  fetch_at to = do found ← retry_at fuel initial_size; finish to found

  module _ (rounds len : ℕ) (w : W) where
    at_done :
        (query len w).0.code ≢ erange
        → retry_at (suc rounds) len w ≡ (ret (some (query len w).0), (query len w).1)
    unfolding retry_at
    at_done h = ground arith

    at_again :
        (query len w).0.code ≡ erange
        → len * 2 ≤ max
        → retry_at (suc rounds) len w ≡ retry_at rounds (len * 2) (query len w).1
    unfolding retry_at
    at_again e h = ground arith

    -- The length fits, so its double is below `2 * (max + 1)`, and `resize` panics.
    at_overflow :
        (query len w).0.code ≡ erange
        → len ≤ max
        → max < len * 2
        → retry_at (suc rounds) len w ≡ (stop capacity_overflow, (query len w).1)
    unfolding retry_at
    at_overflow e h k = ground arith

  -- From a buffer of this length on, each one that fits was too small for the C library, and the
  -- next length is beyond `isize::MAX`.
  pub Outgrows : ℕ → ℕ → W → Type 0
  Outgrows zero len w = ⊥
  Outgrows (suc rounds) len w =
      ((query len w).0.code ≡ erange)
      × ((max < len * 2) ⊎ Outgrows rounds (len * 2) (query len w).1)

  abbrev Agrees : ℕ → ℕ → W → Type 0
  Agrees rounds len w =
      (Outgrows rounds len w × ((retry_at rounds len w).0 ≡ stop capacity_overflow))
      ⊎ (¬ Outgrows rounds len w × (retry_at rounds len w ≡ retry query rounds len w))

  retry_at-Agrees : (rounds len : ℕ) (w : W) → len ≤ max → max ≤ isize_max → Agrees rounds len w
  unfolding retry_at retry Outgrows
  retry_at-Agrees zero len w h k = inr (λ o. o, refl)
  retry_at-Agrees (suc rounds) len w h k = elim (ℕ_discrete (query len w).0.code erange) [
    | no ne ↦
        inr (λ o. ne o.0, ground (arith, at_done rounds len w ne, retry_done query rounds len w ne))
    | yes e ↦ elim (dec_le (len * 2) max) [
      | no gt ↦ inl ((e, inl (omega arith)), ground (arith, at_overflow rounds len w e h))
      | yes le ↦ elim (retry_at-Agrees rounds (len * 2) (query len w).1 le k) [
        | inl (o, p) ↦ inl ((e, inr o), ground (arith, at_again rounds len w e le))
        | inr (o, p) ↦ inr (
          λ q. elim q.1 [ inl gt ↦ absurd (omega arith) | inr r ↦ o r ],
          ground (arith, at_again rounds len w e le, retry_again query rounds len w e),
        )
      ]
    ]
  ]

  -- On a 64-bit target this is the loop of Base/Lookup.
  retry_at_wide :
      (rounds len : ℕ) (w : W) → max ≡ isize_max → retry_at rounds len w ≡ retry query rounds len w
  unfolding retry_at retry
  retry_at_wide zero len w e = refl
  retry_at_wide (suc rounds) len w e =
      ground (arith, retry_at_wide rounds (len * 2) (query len w).1 e)

  -- On a target where `isize::MAX` is at least 2048 and at most what it is on 64-bit targets: if the C
  -- library calls each buffer of 2048 bytes, of twice that, and so on up to `isize::MAX`, too small, a
  -- lookup panics with a capacity overflow; else it ends as on a 64-bit target, with the same result
  -- in the same world.
  pub fetch_at_agrees :
      {A : Type 0} (to : C → Outcome A) (w : W)
      → initial_size ≤ max
      → max ≤ isize_max
      → (Outgrows fuel initial_size w × ((fetch_at to w).0 ≡ stop capacity_overflow))
        ⊎ (¬ Outgrows fuel initial_size w × (fetch_at to w ≡ fetch query to w))
  unfolding fetch_at fetch
  fetch_at_agrees to w h k = elim (retry_at-Agrees fuel initial_size w h k) [
    | inl (o, p) ↦ inl (o, ground (arith, p))
    | inr (o, p) ↦ inr (o, ground (arith, p))
  ]
