-- ===== src/Base/Lookup/Restrict.antt =====
-- The lookups with a C struct that has more fields, against those with fewer.
use mathlib.Core.Option
use rust_users.Prelude.{ℕ, zero, suc, ◌*◌, ◌≡◌, refl, Option, none, some, arith, nat_eq}
use rust_users.Std.Exec.{Outcome, ret, stop, diverges, bind, continue}
use rust_users.Libc.{Reply}
use rust_users.Base.Lookup.{retry, convert, finish, fetch, fuel, initial_size}
use rust_users.Base.Lookup.Loop.{
  retry_done, retry_again, retry_capacity_overflow, retry_size_overflow,
}

no_rounds :
    {W C : Type 0} (query : ℕ → W → Reply C × W) (len : ℕ) (w : W)
    → retry query zero len w ≡ (diverges, w)
unfolding retry
no_rounds query len w = refl

module _ {C C' : Type 0} (part : C → C') where
  abbrev part_of : Reply C → Reply C'
  part_of r = record { code = r.code; result = r.result; struct = part r.struct }

  -- A C library that answers only with that part of the struct.
  abbrev pub restrict : {W : Type 0} → (ℕ → W → Reply C × W) → ℕ → W → Reply C' × W
  restrict query len w = let (reply, w') = query len w in (part_of reply, w')

  abbrev replied : Outcome (Option (Reply C)) → Outcome (Option (Reply C'))
  replied r = bind r λ reply. ret (Option.map part_of reply)

  module _ {W : Type 0} (query : ℕ → W → Reply C × W) where
    retry-restrict :
        (rounds len : ℕ) (w : W)
        → let (r, w') = retry query rounds len w in
          retry (restrict query) rounds len w ≡ (replied r, w')
    retry-restrict zero len w =
        ground (arith, no_rounds query len w, no_rounds (restrict query) len w)
    retry-restrict (suc rounds) len w = ground (
      arith,
      retry_done query rounds len w,
      retry_again query rounds len w,
      retry_capacity_overflow query rounds len w,
      retry_size_overflow query rounds len w,
      retry_done (restrict query) rounds len w,
      retry_again (restrict query) rounds len w,
      retry_capacity_overflow (restrict query) rounds len w,
      retry_size_overflow (restrict query) rounds len w,
      retry-restrict rounds (len * 2) (query len w).1,
    )

  module _ {A A' : Type 0} (view : A → A') (to : C → Outcome A) (to' : C' → Outcome A')
      (agrees : (c : C) → bind (to c) (λ a. ret (view a)) ≡ to' (part c)) where
    abbrev viewed : Outcome (Option A) → Outcome (Option A')
    viewed r = bind r λ a. ret (Option.map view a)

    module _ {W : Type 0} where
      finish-restrict :
          (reply : Option (Reply C)) (w : W)
          → let (r, w') = finish to reply w in
            finish to' (Option.map part_of reply) w ≡ (viewed r, w')
      unfolding convert
      finish-restrict none w = refl
      finish-restrict (some reply) w = ground (arith, agrees reply.struct)

      rest-restrict :
          (r : Outcome (Option (Reply C))) (w : W)
          → let (a, w') = continue r w (finish to) in
            continue (replied r) w (finish to') ≡ (viewed a, w')
      rest-restrict (ret reply) w = finish-restrict reply w
      rest-restrict (stop f) w = refl
      rest-restrict diverges w = refl

      -- If the conversion of the part gives a view of what the conversion of the whole gives, then
      -- a lookup that is answered with the part gives that view of what it gives with the whole.
      pub fetch-restrict :
          (query : ℕ → W → Reply C × W) (w : W)
          → let (r, w') = fetch query to w in fetch (restrict query) to' w ≡ (viewed r, w')
      unfolding fetch
      fetch-restrict query w =
          let (r, w') = retry query fuel initial_size w in
          rw (retry-restrict query fuel initial_size w) (rest-restrict r w')
