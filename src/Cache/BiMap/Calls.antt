-- ===== src/Cache/BiMap/Calls.antt =====
-- cache.rs: lookups through one map, one after another.
use rust_users.Prelude.{Option, List, [], ◌∷◌, Eq, bytes_eq}
use rust_users.Std.Exec.{Exec, pure, ◌>>=◌}
use rust_users.Std.Ffi.{OsString}
use rust_users.Cache.BiMap.{BiMap, by_key, by_name}

-- The two kinds of lookup, which a program mixes.
pub data Lookup (K : Type 0) : Type 0 where
  at_key : K → Lookup K
  at_name : OsString → Lookup K

module _ {K V W : Type 0} ⦃e : Eq K⦄ (name_of : V → OsString) (key_of : V → K)
    (key_fetch : K → Exec W (Option V)) (name_fetch : OsString → Exec W (Option V)) where
  unfoldable pub look_up : Lookup K → Exec (BiMap K V × W) (Option V)
  look_up (at_key key) = by_key name_of key_fetch key
  look_up (at_name name) = by_name key_of name_fetch name

  unfoldable pub look_up_all : List (Lookup K) → Exec (BiMap K V × W) (List (Option V))
  look_up_all [] = pure []
  look_up_all (l ∷ ls) = do a ← look_up l; rest ← look_up_all ls; pure (a ∷ rest)
