-- ===== src/Tests/Targets.antt =====
-- Other targets than Linux with 64 bits, on the small system.
use rust_users.Prelude.{ℕ, zero, suc, ◌-◌, ◌^◌, ◌≡◌, ◌⊎◌, List, All, replicate, drop, codes, arith}
use rust_users.Std.Exec.{stop, capacity_overflow}
use rust_users.Base.GroupLists
use rust_users.Base.GroupLists.{buffer_size, buffer}
use rust_users.Base.Lookup.{fetch, fuel, initial_size}
use rust_users.Base.Lookup.Width.{Outgrows, fetch_at, fetch_at_agrees}
use rust_users.Base.Raw.{passwd_to_user}
use rust_users.Base.MacOs
use rust_users.Base.MacOs.Casts.{IsGid, with_i32, macos_agrees}
use rust_users.Tests.System.{toy, as_fred}

-- A target with 32 bits.
fetch_at_agrees_example :
    (Outgrows (2 ^ 31 - 1) (toy.getpwuid_r 1337) fuel initial_size as_fred
      × ((fetch_at (2 ^ 31 - 1) (toy.getpwuid_r 1337) passwd_to_user as_fred).0
          ≡ stop capacity_overflow))
    ⊎ (¬ Outgrows (2 ^ 31 - 1) (toy.getpwuid_r 1337) fuel initial_size as_fred
        × (fetch_at (2 ^ 31 - 1) (toy.getpwuid_r 1337) passwd_to_user as_fred
            ≡ fetch (toy.getpwuid_r 1337) passwd_to_user as_fred))
fetch_at_agrees_example =
    fetch_at_agrees (2 ^ 31 - 1) (toy.getpwuid_r 1337) passwd_to_user as_fred (omega arith)
      (omega arith)

zeros_fit : (n m : ℕ) → All IsGid (drop n (replicate m 0))
zeros_fit zero zero = tt
zeros_fit (suc n) zero = tt
zeros_fit zero (suc m) = (omega arith, zeros_fit zero m)
zeros_fit (suc n) (suc m) = zeros_fit n m

fred_fits : (name : List ℕ) → All IsGid (toy.getgrouplist name 1337 buffer buffer_size as_fred).1
unfolding buffer
fred_fits name = (omega arith, (omega arith, zeros_fit 2 buffer_size))

macos_agrees_example :
    MacOs.get_user_groups toy (with_i32 toy) (codes "fred") 1337 as_fred
    ≡ GroupLists.get_user_groups toy (codes "fred") 1337 as_fred
macos_agrees_example = macos_agrees toy (codes "fred") 1337 as_fred (omega arith) fred_fits
