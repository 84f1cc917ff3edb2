-- ===== src/Std/Arc.antt =====
-- `Arc`, where its identity matters: a pointer to a value that is shared.
use rust_users.Prelude.{ℕ, suc, Bool, Option, none, some, ◌==◌, nat_eq}
use rust_users.Std.Exec.{Exec, ret, pure, os, ◌>>=◌}

-- The address of the allocation, and what stands there. `Arc::clone` copies the pointer.
pub record Arc (A : Type 0) : Type 0 where
  pub address : ℕ
  pub value : A

-- `Arc::ptr_eq`
unfoldable pub ptr_eq : {A : Type 0} → Arc A → Arc A → Bool
ptr_eq a b = a.address == b.address

-- The allocator, in front of a state: the next address that is free.
abbrev pub Alloc : Type 0 → Type 0
Alloc W = ℕ × W

-- `Arc::new`
abbrev new_arc : {A W : Type 0} → A → Exec (Alloc W) (Arc A)
new_arc a (next, w) = (ret (record { address = next; value = a }), (suc next, w))

-- `Arc::new` of the value that is found, if one is.
abbrev pub new_found : {A W : Type 0} → Exec W (Option A) → Exec (Alloc W) (Option (Arc A))
new_found m = do
  found ← os m
  elim found [ none ↦ pure none | some a ↦ do arc ← new_arc a; pure (some arc) ]
