-- ===== src/Cache/Sharing.antt =====
-- cache.rs: the lookups with the identity of what they return. A `BiMap` here holds `Arc`s, so that
-- two answers can be compared by `Arc::ptr_eq`.
pub mod Forget
pub mod Pointers
pub mod Lookups
pub mod Identity
pub mod Alias
use rust_users.Prelude.{ℕ, Option, Eq, bytes_eq, nat_eq}
use rust_users.Std.Exec.{Exec}
use rust_users.Std.Ffi.{OsString}
use rust_users.Std.Arc.{Arc, Alloc, new_found}
use rust_users.Libc.{Libc}
use rust_users.Base.Types.{User, Group}
use rust_users.Base.Lookup
use rust_users.Cache.BiMap.{BiMap, by_key, by_name}

abbrev pub Shared : Type 0 → Type 0 → Type 0 → Type 0
Shared K V W = BiMap K (Arc V) × Alloc W

module _ {K V W : Type 0} ⦃e : Eq K⦄ where
  -- `get_user_by_uid`, `get_group_by_gid`
  unfoldable pub by_key_shared :
      (V → OsString) → (K → Exec W (Option V)) → K → Exec (Shared K V W) (Option (Arc V))
  unfolding by_key
  by_key_shared name_of fetch =
      by_key (λ (a : Arc V). name_of a.value) (λ key. new_found (fetch key))

  -- `get_user_by_name`, `get_group_by_name`
  pub by_name_shared :
      (V → K) → (OsString → Exec W (Option V)) → OsString → Exec (Shared K V W) (Option (Arc V))
  unfolding by_name
  by_name_shared key_of fetch =
      by_name (λ (a : Arc V). key_of a.value) (λ name. new_found (fetch name))

module _ (L : Libc) where
  unfoldable pub get_user_by_uid : ℕ → Exec (Shared ℕ User L.World) (Option (Arc User))
  unfolding by_key_shared
  get_user_by_uid = by_key_shared (λ u. u.name_arc) (Lookup.get_user_by_uid L)

  unfoldable pub get_user_by_name : OsString → Exec (Shared ℕ User L.World) (Option (Arc User))
  unfolding by_name_shared
  get_user_by_name = by_name_shared (λ u. u.uid) (Lookup.get_user_by_name L)

  unfoldable pub get_group_by_gid : ℕ → Exec (Shared ℕ Group L.World) (Option (Arc Group))
  unfolding by_key_shared
  get_group_by_gid = by_key_shared (λ g. g.name_arc) (Lookup.get_group_by_gid L)

  unfoldable pub get_group_by_name : OsString → Exec (Shared ℕ Group L.World) (Option (Arc Group))
  unfolding by_name_shared
  get_group_by_name = by_name_shared (λ g. g.gid) (Lookup.get_group_by_name L)
