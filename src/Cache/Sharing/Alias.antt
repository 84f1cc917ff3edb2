-- ===== src/Cache/Sharing/Alias.antt =====
-- cache.rs: a lookup by a name that is not cached puts a new `Arc` in the place of one that is.
use rust_users.Prelude.{ℕ, ◌<◌, ◌≡◌, refl, false, Option, none, some, arith, Eq, bytes_eq, nat_eq}
use rust_users.Std.Exec.{Exec, ret}
use rust_users.Std.Ffi.{OsString}
use rust_users.Std.HashMap.{get, get-insert}
use rust_users.Std.Arc.{Arc, ptr_eq}
use rust_users.Cache.BiMap.{BiMap, by_key, by_name}
use rust_users.Cache.BiMap.Closed.{IsClosed}
use rust_users.Cache.Sharing.{by_key_shared, by_name_shared}

module _ {K V W : Type 0} ⦃e : Eq K⦄ (name_of : V → OsString) (key_of : V → K)
    (key_fetch : K → Exec W (Option V)) (name_fetch : OsString → Exec W (Option V)) where
  -- When a value is cached under its key as an `Arc` that has been allocated, and then found by a
  -- name that is not cached, such as an alias, the next lookup by the key does not go to the system
  -- and returns an `Arc` of another allocation than the one before, with the value found last.
  pub alias_replaces :
      (m : BiMap K (Arc V)) (next : ℕ) (w w' : W) (key : K) (a : Arc V) (alias : OsString) (v : V)
      → IsClosed m
      → get key m.forward.value ≡ some (some a)
      → a.address < next
      → get alias m.backward.value ≡ none
      → name_fetch alias w ≡ (ret (some v), w')
      → key_of v ≡ key
      → let s = (by_name_shared key_of name_fetch alias (m, (next, w))).1 in
        (b : Arc V) × ((by_key_shared name_of key_fetch key (m, (next, w))).0 ≡ ret (some a))
        × (by_key_shared name_of key_fetch key s ≡ (ret (some b), s))
        × (b.value ≡ v)
        × (ptr_eq a b ≡ false)
  unfolding by_key_shared by_name_shared by_key by_name ptr_eq
  alias_replaces m next w w' key a alias v c p below new q own =
      let b : Arc V = record { address = next; value = v } in
      (
        b,
        ground (arith, c.forward_free, c.backward_free),
        ground (
          arith,
          c.forward_free,
          c.backward_free,
          get-insert key (key_of v) (some b) m.forward.value,
        ),
        refl,
        ground arith,
      )
