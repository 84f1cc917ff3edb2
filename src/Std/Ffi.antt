-- ===== src/Std/Ffi.antt =====
-- `OsStr`, `CString` and `CStr`. An `OsStr` is its bytes.
use rust_users.Prelude.{
  ℕ, Bool, false, ◌||◌, Option, none, some, List, [], ◌∷◌, ◌++◌, ◌==◌, nat_eq, if◌then◌else◌,
}
use rust_users.Std.Exec.{Outcome, ret, stop, undefined_behaviour, bind}

abbrev pub OsString : Type 0
OsString = List ℕ

-- Whether a byte string has a zero byte.
unfoldable pub has_nul : List ℕ → Bool
has_nul [] = false
has_nul (b ∷ bs) = b == 0 || has_nul bs

-- `CString::new(bytes)`: `none` is the `Err` for an interior zero byte. What C then sees is the
-- bytes and a zero.
unfoldable pub cstring_new : List ℕ → Option (List ℕ)
unfolding has_nul
cstring_new bytes = if has_nul bytes then none else some (bytes ++ 0 ∷ [])

-- A `*const c_char`: null, or the memory from the address on.
pub data CharPtr : Type 0 where
  null : CharPtr
  at : List ℕ → CharPtr

-- The bytes of `CStr::from_ptr(p).to_bytes()`: those before the first zero.
unfoldable pub to_bytes : List ℕ → Outcome OsString
to_bytes [] = stop undefined_behaviour
to_bytes (b ∷ bs) =
    let rest = to_bytes bs in if b == 0 then ret [] else bind rest λ tail. ret (b ∷ tail)
