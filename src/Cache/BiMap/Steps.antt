-- ===== src/Cache/BiMap/Steps.antt =====
-- Lookups in a map: those whose answer is cached, and those for which there is no entry.
use rust_users.Prelude.{◌≡◌, refl, Option, none, some, arith, Eq, bytes_eq}
use rust_users.Std.Exec.{Exec, Outcome, ret, stop, diverges}
use rust_users.Std.Ffi.{OsString}
use rust_users.Std.HashMap.{get}
use rust_users.Cache.BiMap.{BiMap, by_key, by_name}
use rust_users.Cache.BiMap.Closed.{IsClosed, cached_name}

module _ {K V W : Type 0} ⦃e : Eq K⦄ (m : BiMap K V) (w : W) (h : IsClosed m) where
  pub by_key_hit :
      (name_of : V → OsString) (fetch : K → Exec W (Option V)) (key : K) {r : Option V}
      → get key m.forward.value ≡ some r
      → by_key name_of fetch key (m, w) ≡ (ret r, (m, w))
  unfolding by_key
  by_key_hit name_of fetch key p = ground arith

  pub by_name_hit :
      (key_of : V → K) (fetch : OsString → Exec W (Option V)) (name : OsString) {r : Option V}
      → cached_name name m ≡ some r
      → by_name key_of fetch name (m, w) ≡ (ret r, (m, w))
  unfolding by_name
  by_name_hit key_of fetch name p = ground arith

  -- Without an entry, the result and the world are those of asking the system.
  pub by_key_miss :
      (name_of : V → OsString) (fetch : K → Exec W (Option V)) (key : K)
      → get key m.forward.value ≡ none
      → let (r, (_, w')) = by_key name_of fetch key (m, w) in (r, w') ≡ fetch key w
  unfolding by_key
  by_key_miss name_of fetch key p = asked (fetch key w) refl
    where
      asked :
          (q : Outcome (Option V) × W)
          → fetch key w ≡ q
          → let (r, (_, w')) = by_key name_of fetch key (m, w) in (r, w') ≡ q
      asked (ret none, w') f = ground arith
      asked (ret (some v), w') f = ground arith
      asked (stop x, w') f = ground arith
      asked (diverges, w') f = ground arith

  pub by_name_miss :
      (key_of : V → K) (fetch : OsString → Exec W (Option V)) (name : OsString)
      → get name m.backward.value ≡ none
      → let (r, (_, w')) = by_name key_of fetch name (m, w) in (r, w') ≡ fetch name w
  unfolding by_name
  by_name_miss key_of fetch name p = asked (fetch name w) refl
    where
      asked :
          (q : Outcome (Option V) × W)
          → fetch name w ≡ q
          → let (r, (_, w')) = by_name key_of fetch name (m, w) in (r, w') ≡ q
      asked (ret none, w') f = ground arith
      asked (ret (some v), w') f = ground arith
      asked (stop x, w') f = ground arith
      asked (diverges, w') f = ground arith
