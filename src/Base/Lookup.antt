-- ===== src/Base/Lookup.antt =====
-- base.rs: `get_user_by_uid`, `get_user_by_name`, `get_group_by_gid` and `get_group_by_name`.
pub mod Results
pub mod Loop
pub mod Sizes
pub mod Restrict
pub mod Width
use rust_users.Prelude.{
  ℕ, zero, suc, ◌*◌, ◌-◌, ◌^◌, ltb, true, false, Option, none, some, List, ◌==◌, nat_eq,
  if◌then◌else◌,
}
use rust_users.Std.Exec.{Outcome, diverges, capacity_overflow, Exec, pure, throw, call, lift, ◌>>=◌}
use rust_users.Std.Ffi.{OsString, cstring_new}
use rust_users.Libc.{Libc, Passwd, CGroup, Reply, Query, ResultPtr, erange}
use rust_users.Base.Types.{User, Group}
use rust_users.Base.Raw.{passwd_to_user, struct_to_group}

-- A 64-bit target.
abbrev pub usize_mod : ℕ
usize_mod = 2 ^ 64

abbrev pub isize_max : ℕ
isize_max = 2 ^ 63 - 1

-- `vec![0; 2048]`
abbrev pub initial_size : ℕ
initial_size = 2048

-- Enough for any C library: see `fetch-ne-diverges`.
abbrev pub fuel : ℕ
fuel = 64

-- `usize::checked_mul`
checked_mul : ℕ → ℕ → Option ℕ
checked_mul a b = if ltb (a * b) usize_mod then some (a * b) else none

-- `buf.resize(newsize, 0)`: of the buffer only its length matters.
resize : {W : Type 0} → ℕ → Exec W ℕ
resize newsize = if ltb isize_max newsize then throw capacity_overflow else pure newsize

module _ {W C : Type 0} (query : ℕ → W → Reply C × W) where
  -- The loop: the call with a buffer of the length `len`, and again with twice that after `ERANGE`.
  -- `none` is the early return of `None`.
  pub retry : ℕ → ℕ → Exec W (Option (Reply C))
  unfolding checked_mul resize
  retry zero len = λ w. (diverges, w)
  retry (suc rounds) len = do
    reply ← call (query len)
    elim (reply.code == erange) [
      | true ↦ elim (checked_mul len 2) [
        | none ↦ pure none
        | some newsize ↦ do size ← resize newsize; retry rounds size
      ]
      | false ↦ pure (some reply)
    ]

-- What follows the loop: the tests on `result`, and the conversion of the struct.
unfoldable pub convert : {W C A : Type 0} → (C → Outcome A) → Reply C → Exec W (Option A)
convert to reply = elim reply.result [
  | ResultPtr.null ↦ pure none
  | ResultPtr.other ↦ pure none
  | ResultPtr.input ↦ do a ← lift (to reply.struct); pure (some a)
]

abbrev pub finish : {W C A : Type 0} → (C → Outcome A) → Option (Reply C) → Exec W (Option A)
finish to none = pure none
finish to (some reply) = convert to reply

-- The part that the four functions have in common.
unfoldable pub fetch :
    {W C A : Type 0} → (ℕ → W → Reply C × W) → (C → Outcome A) → Exec W (Option A)
fetch query to = do found ← retry query fuel initial_size; finish to found

module _ (L : Libc) where
  unfoldable pub get_user_by_uid : ℕ → Exec L.World (Option User)
  get_user_by_uid uid = fetch (L.getpwuid_r uid) passwd_to_user

  unfoldable pub get_user_by_name : OsString → Exec L.World (Option User)
  get_user_by_name username = elim (cstring_new username) [
    | none ↦ pure none
    | some cstring ↦ fetch (L.getpwnam_r cstring) passwd_to_user
  ]

  unfoldable pub get_group_by_gid : ℕ → Exec L.World (Option Group)
  get_group_by_gid gid = fetch (L.getgrgid_r gid) struct_to_group

  unfoldable pub get_group_by_name : OsString → Exec L.World (Option Group)
  get_group_by_name groupname = elim (cstring_new groupname) [
    | none ↦ pure none
    | some cstring ↦ fetch (L.getgrnam_r cstring) struct_to_group
  ]
