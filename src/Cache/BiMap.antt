-- ===== src/Cache/BiMap.antt =====
-- cache.rs: `BiMap`, and the lookups through it. `UsersCache` does the same for users by
-- `get_user_by_uid` and `get_user_by_name` as for groups by `get_group_by_gid` and
-- `get_group_by_name`, so the two methods are written once, over the type of the values.
pub mod Coherent
pub mod Calls
pub mod Once
pub mod Stable
pub mod Cross
pub mod Repeat
pub mod Steps
pub mod Closed
use rust_users.Prelude.{◌≡◌, Bool, true, false, Option, none, some, [], Eq, bytes_eq, if◌then◌else◌}
use rust_users.Std.Exec.{
  Exec, already_borrowed, key_not_found, stop, pure, throw, gets, modify, os, ◌>>=◌, ◌>>◌,
}
use rust_users.Std.Ffi.{OsString}
use rust_users.Std.HashMap.{HashMap, get, insert}

-- `RefCell`, with the flag that a `RefMut` holds.
pub record RefCell (A : Type 0) : Type 0 where
  pub borrowed : Bool
  pub value : A

pub record BiMap (K V : Type 0) : Type 0 where
  pub forward : RefCell (HashMap K (Option V))
  pub backward : RefCell (HashMap OsString (Option K))

-- A `BiMap` between two calls: nobody holds a borrow.
abbrev idle : {K V : Type 0} → HashMap K (Option V) → HashMap OsString (Option K) → BiMap K V
idle f b = record {
  forward = record { borrowed = false; value = f };
  backward = record { borrowed = false; value = b };
}

-- `BiMap { forward: RefCell::new(HashMap::new()), … }`
abbrev pub empty : {K V : Type 0} → BiMap K V
empty = idle [] []

module _ {K V W A : Type 0} where
  -- The scope of `self.….forward.borrow_mut()`: it panics if the cell is borrowed, and gives the
  -- borrow back at its end, also when it unwinds.
  abbrev pub borrow_forward : Exec (BiMap K V × W) A → Exec (BiMap K V × W) A
  borrow_forward scope (m, w) =
      if m.forward.borrowed
      then (stop already_borrowed, (m, w))
      else let (r, (m', w')) =
          scope (record m { forward = record m.forward { borrowed = true } }, w) in
        (r, (record m' { forward = record m'.forward { borrowed = false } }, w'))

  -- The scope of `self.….backward.borrow_mut()`.
  abbrev pub borrow_backward : Exec (BiMap K V × W) A → Exec (BiMap K V × W) A
  borrow_backward scope (m, w) =
      if m.backward.borrowed
      then (stop already_borrowed, (m, w))
      else let (r, (m', w')) =
          scope (record m { backward = record m.backward { borrowed = true } }, w) in
        (r, (record m' { backward = record m'.backward { borrowed = false } }, w'))

module _ {K V W : Type 0} ⦃e : Eq K⦄ where
  abbrev pub insert_forward : K → Option V → Exec (BiMap K V × W) (Unit {0})
  insert_forward key value = modify λ (m, w).
      (record m { forward = record m.forward { value = insert key value m.forward.value } }, w)

  abbrev pub insert_backward : OsString → Option K → Exec (BiMap K V × W) (Unit {0})
  insert_backward name key = modify λ (m, w).
      (record m { backward = record m.backward { value = insert name key m.backward.value } }, w)

  -- `forward[&key]`
  abbrev index_forward : K → Exec (BiMap K V × W) (Option V)
  index_forward key = do
    entry ← gets λ s. get key s.0.forward.value
    elim entry [ none ↦ throw key_not_found | some cached ↦ pure cached ]

  module _ (name_of : V → OsString) (fetch : K → Exec W (Option V)) where
    -- `get_user_by_uid`, `get_group_by_gid`
    unfoldable pub by_key : K → Exec (BiMap K V × W) (Option V)
    by_key key = borrow_forward do
      entry ← gets λ s. get key s.0.forward.value
      elim entry [
        | some cached ↦ pure cached
        | none ↦ do
          found ← os (fetch key)
          elim found [
            | some value ↦ borrow_backward do
              insert_backward (name_of value) (some key)
              insert_forward key (some value)
              pure (some value)
            | none ↦ do insert_forward key none; pure none
          ]
      ]

  module _ (key_of : V → K) (fetch : OsString → Exec W (Option V)) where
    -- `get_user_by_name`, `get_group_by_name`
    unfoldable pub by_name : OsString → Exec (BiMap K V × W) (Option V)
    by_name name = borrow_backward do
      entry ← gets λ s. get name s.0.backward.value
      elim entry [
        | some none ↦ pure none
        | some (some key) ↦ borrow_forward (index_forward key)
        | none ↦ do
          found ← os (fetch name)
          elim found [
            | some value ↦ borrow_forward do
              insert_forward (key_of value) (some value)
              insert_backward name (some (key_of value))
              pure (some value)
            | none ↦ do insert_backward name none; pure none
          ]
      ]
