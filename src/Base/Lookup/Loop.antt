-- ===== src/Base/Lookup/Loop.antt =====
-- The loop that doubles the buffer while the C library answers `ERANGE`.
use native.Mathlib.Decide.{dec_le}
use native.Mathlib.Nat.{pow-suc}
use rust_users.Prelude.{ℕ, zero, suc, ◌*◌, ◌^◌, ◌<◌, ◌≤◌, ◌≡◌, ◌≢◌, ap, some, none, arith}
use rust_users.Std.Exec.{ret, stop, diverges, capacity_overflow}
use rust_users.Libc.{Reply, erange}
use rust_users.Base.Lookup.{retry, usize_mod, isize_max}

-- The largest power of two that an allocation can have for its size.
abbrev pub largest : ℕ
largest = 2 ^ 62

-- The two ways to say how far `rounds` doublings go.
double_pow : (len rounds : ℕ) → len * 2 ^ suc rounds ≡ (len * 2) * 2 ^ rounds
double_pow len rounds = omega (arith, ap (λ (t : ℕ). len * t) (pow-suc 2 rounds))

module _ {W C : Type 0} (query : ℕ → W → Reply C × W) (rounds len : ℕ) (w : W) where
  pub retry_done :
      (query len w).0.code ≢ erange
      → retry query (suc rounds) len w ≡ (ret (some (query len w).0), (query len w).1)
  unfolding retry
  retry_done h = ground arith

  pub retry_again :
      (query len w).0.code ≡ erange
      → len * 2 ≤ isize_max
      → retry query (suc rounds) len w ≡ retry query rounds (len * 2) (query len w).1
  unfolding retry
  retry_again e h = ground arith

  pub retry_capacity_overflow :
      (query len w).0.code ≡ erange
      → isize_max < len * 2
      → len * 2 < usize_mod
      → retry query (suc rounds) len w ≡ (stop capacity_overflow, (query len w).1)
  unfolding retry
  retry_capacity_overflow e h k = ground arith

  pub retry_size_overflow :
      (query len w).0.code ≡ erange
      → usize_mod ≤ len * 2
      → retry query (suc rounds) len w ≡ (ret none, (query len w).1)
  unfolding retry
  retry_size_overflow e h = ground arith

module _ {W C : Type 0} (query : ℕ → W → Reply C × W) where
  -- Whatever the C library answers, the loop ends while there is fuel to reach `largest`.
  pub retry-ne-diverges :
      (rounds len : ℕ) (w : W)
      → largest ≤ len * 2 ^ rounds
      → (retry query (suc rounds) len w).0 ≢ diverges
  retry-ne-diverges zero len w h = ground (
    arith,
    retry_done query 0 len w,
    retry_capacity_overflow query 0 len w,
    retry_size_overflow query 0 len w,
  )
  retry-ne-diverges (suc rounds) len w h = ground (
    arith,
    double_pow len rounds,
    retry_done query (suc rounds) len w,
    retry_again query (suc rounds) len w,
    retry_capacity_overflow query (suc rounds) len w,
    retry_size_overflow query (suc rounds) len w,
    retry-ne-diverges rounds (len * 2) (query len w).1,
  )

  -- If every buffer is too small, the loop runs into the limit of the allocator: the overflow of
  -- `checked_mul` comes one doubling too late.
  pub retry_never_enough :
      (rounds len : ℕ) (w : W)
      → ((n : ℕ) (v : W) → (query n v).0.code ≡ erange)
      → len ≤ isize_max
      → largest ≤ len * 2 ^ rounds
      → (retry query (suc rounds) len w).0 ≡ stop capacity_overflow
  retry_never_enough zero len w e k h =
      ground (arith, e len w, retry_capacity_overflow query 0 len w)
  retry_never_enough (suc rounds) len w e k h = ground (
    arith,
    double_pow len rounds,
    e len w,
    retry_again query (suc rounds) len w,
    retry_capacity_overflow query (suc rounds) len w,
    retry_never_enough rounds (len * 2) (query len w).1 e,
  )

  -- With a query that answers from the size `needed` on and leaves the world alone, the loop finds
  -- a size that suffices.
  pub retry_finds :
      (needed rounds len : ℕ) (w : W)
      → ((n : ℕ) → (query n w).1 ≡ w)
      → ((n : ℕ) → n < needed → (query n w).0.code ≡ erange)
      → ((n : ℕ) → needed ≤ n → (query n w).0.code ≢ erange)
      → needed ≤ largest
      → largest ≤ len * 2 ^ rounds
      → (n : ℕ) × (needed ≤ n) × (retry query (suc rounds) len w ≡ (ret (some (query n w).0), w))
  retry_finds needed zero len w keeps small fits bound h =
      (len, omega arith, ground (arith, keeps len, fits len, retry_done query 0 len w))
  retry_finds needed (suc rounds) len w keeps small fits bound h = elim (dec_le needed len) [
    | yes p ↦ (len, p, ground (arith, keeps len, fits len, retry_done query (suc rounds) len w))
    | no p ↦
        let again : largest ≤ (len * 2) * 2 ^ rounds = omega (arith, double_pow len rounds) in
        let (n, q, e) = retry_finds needed rounds (len * 2) w keeps small fits bound again in
        (n, q, ground (arith, e, keeps len, small len, retry_again query (suc rounds) len w))
  ]
