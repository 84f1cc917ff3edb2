-- ===== src/Base/Lookup/Sizes.antt =====
-- The buffers that a lookup passes to the C library.
use native.Mathlib.Decide.{dec_lt}
use native.Mathlib.Nat.{pow-suc}
use rust_users.Prelude.{ℕ, zero, suc, ◌*◌, ◌^◌, ◌≤◌, ◌≡◌, refl, ap, arith, nat_eq}
use rust_users.Std.Exec.{Outcome}
use rust_users.Libc.{Reply}
use rust_users.Base.Lookup.{retry, fetch, fuel, initial_size}
use rust_users.Base.Lookup.Loop.{largest, retry_done, retry_capacity_overflow}

-- The length of the buffer after some doublings.
abbrev pub size : ℕ → ℕ
size doublings = initial_size * 2 ^ doublings

abbrev last_doubling : ℕ
last_doubling = 51

size-suc : (k : ℕ) → size k * 2 ≡ size (suc k)
size-suc k = omega (arith, ap (λ (t : ℕ). initial_size * t) (pow-suc 2 k))

module _ {W C : Type 0} (query query' : ℕ → W → Reply C × W)
    (same : (k : ℕ) → k ≤ last_doubling → (v : W) → query (size k) v ≡ query' (size k) v) where
  retry_same :
      (rounds k : ℕ) (w : W)
      → k ≤ last_doubling
      → retry query rounds (size k) w ≡ retry query' rounds (size k) w
  unfolding retry
  retry_same zero k w h = refl
  retry_same (suc rounds) k w h = elim (dec_lt k last_doubling) [
    | yes lt ↦
        ground (arith, same k h w, size-suc k, retry_same rounds (suc k) (query (size k) w).1)
    | no ge ↦
        let end : k ≡ last_doubling = omega arith in
        let last : size k ≡ largest = ap size end in
        ground (
          arith,
          last,
          same k h w,
          retry_done query rounds (size k) w,
          retry_done query' rounds (size k) w,
          retry_capacity_overflow query rounds (size k) w,
          retry_capacity_overflow query' rounds (size k) w,
        )
  ]

  -- If two C libraries answer alike for buffers of 2048 bytes and of each power of two times that,
  -- up to 2 ^ 62 bytes, a lookup has the same result with both. So it passes no other lengths.
  pub fetch_sizes : {A : Type 0} (to : C → Outcome A) (w : W) → fetch query to w ≡ fetch query' to w
  unfolding fetch
  fetch_sizes to w = ground (arith, retry_same fuel 0 w (omega arith))
