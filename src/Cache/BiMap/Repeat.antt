-- ===== src/Cache/BiMap/Repeat.antt =====
-- Lookups in a map that are made twice.
use rust_users.Prelude.{◌≡◌, Option, some, arith, Eq, bytes_eq}
use rust_users.Std.Exec.{Exec, ret}
use rust_users.Std.Ffi.{OsString}
use rust_users.Std.HashMap.{get, get-insert}
use rust_users.Cache.BiMap.{BiMap, by_key, by_name}
use rust_users.Cache.BiMap.Closed.{IsClosed, cached_name, by_key_safe, by_name_safe}
use rust_users.Cache.BiMap.Steps.{by_key_hit, by_name_hit}

module _ {K V W : Type 0} ⦃e : Eq K⦄ (m : BiMap K V) (w : W) (h : IsClosed m) {r : Option V} where
  module _ (name_of : V → OsString) (fetch : K → Exec W (Option V)) (key : K)
      (p : (by_key name_of fetch key (m, w)).0 ≡ ret r) where
    by_key_cached : get key (by_key name_of fetch key (m, w)).1.0.forward.value ≡ some r
    unfolding by_key
    by_key_cached = grind (arith, get-insert)

    -- In a map whose cells are free and whose names lead to cached keys, after a lookup by key that
    -- returned, the same lookup returns the same answer and changes nothing.
    pub by_key_again :
        let s = (by_key name_of fetch key (m, w)).1 in by_key name_of fetch key s ≡ (ret r, s)
    by_key_again =
        let (m', w') = (by_key name_of fetch key (m, w)).1 in
        by_key_hit m' w' (by_key_safe name_of fetch key m w h).0 name_of fetch key by_key_cached

  module _ (key_of : V → K) (fetch : OsString → Exec W (Option V)) (name : OsString)
      (p : (by_name key_of fetch name (m, w)).0 ≡ ret r) where
    by_name_cached : cached_name name (by_name key_of fetch name (m, w)).1.0 ≡ some r
    unfolding by_name
    by_name_cached = grind (arith, get-insert)

    -- In a map whose cells are free and whose names lead to cached keys, after a lookup by name
    -- that returned, the same lookup returns the same answer and changes nothing.
    pub by_name_again :
        let s = (by_name key_of fetch name (m, w)).1 in by_name key_of fetch name s ≡ (ret r, s)
    by_name_again =
        let (m', w') = (by_name key_of fetch name (m, w)).1 in
        by_name_hit m' w' (by_name_safe key_of fetch name m w h).0 key_of fetch name by_name_cached
