-- ===== src/Std/Exec.antt =====
-- Code that reads and writes a state, and that may stop: by a panic, or by undefined behaviour of
-- an `unsafe` block. The state comes back in each case, since what was written stays written.
use rust_users.Prelude.{Bool, true, false, Option, none, some, String, ℕ, ◌≢◌, refl, arith}
use rust_users.Prelude.Int.{ℤ}

pub data Fault : Type 0 where
  -- `Vec::resize` beyond `isize::MAX` bytes
  capacity_overflow : Fault
  -- `RefCell::borrow_mut` on a cell that is borrowed
  already_borrowed : Fault
  -- `map[&key]` on a missing key
  key_not_found : Fault
  -- `unwrap` of `None`, or `expect` with its message
  unwrapped_none : Fault
  expected : String → Fault
  -- `assert!` or `assert_eq!`
  assertion_failed : Fault
  -- `unwrap` of the error of `CString::new`
  interior_nul : Fault
  -- `unreachable!` on the value that a C function returned
  unreachable : ℤ → Fault
  -- `expect` with the message about the group, or about the user
  failed_to_set_effective_gid failed_to_set_effective_uid : Fault
  -- a panic in a destructor while another panic unwinds
  aborted : Fault
  -- a null pointer, or memory past its end, was read
  undefined_behaviour : Fault

-- `diverges` is reached only where a loop's fuel runs out.
pub data Outcome {ℓ} (A : Type ℓ) : Type ℓ where
  ret : A → Outcome A
  stop : Fault → Outcome A
  diverges : Outcome A

-- `io::Result`: an error carries the `errno` of `io::Error::last_os_error`.
pub data IoResult {ℓ} (A : Type ℓ) : Type ℓ where
  ok : A → IoResult A
  err : ℕ → IoResult A

abbrev pub Exec {ℓ} : Type ℓ → Type ℓ → Type ℓ
Exec S A = S → Outcome A × S

module _ {ℓ} {S A : Type ℓ} where
  abbrev pub pure : A → Exec S A
  pure a s = (ret a, s)

  abbrev pub throw : Fault → Exec S A
  throw f s = (stop f, s)

  abbrev pub lift : Outcome A → Exec S A
  lift r s = (r, s)

  -- A function of the environment that ends always.
  abbrev pub call : (S → A × S) → Exec S A
  call f s = let (a, s') = f s in (ret a, s')

  abbrev pub gets : (S → A) → Exec S A
  gets f s = (ret (f s), s)

-- `Option::unwrap`, `Option::expect`
abbrev pub unwrap : {S A : Type 0} → Option A → Exec S A
unwrap none = throw unwrapped_none
unwrap (some a) = pure a

abbrev pub expect : {S A : Type 0} → String → Option A → Exec S A
expect message none = throw (expected message)
expect message (some a) = pure a

-- `Result::expect`
abbrev pub expect_ok : {S A : Type 0} → String → IoResult A → Exec S A
expect_ok message (ok a) = pure a
expect_ok message (err e) = throw (expected message)

-- `assert!`
abbrev pub assert : {S : Type 0} → Bool → Exec S (Unit {0})
assert true = pure tt
assert false = throw assertion_failed

abbrev pub modify : {S : Type 0} → (S → S) → Exec S Unit
modify f s = (ret tt, f s)

module _ {ℓ} {S A B : Type ℓ} where
  -- The rest of a block, after the part before it has ended.
  abbrev pub continue : Outcome A → S → (A → Exec S B) → Outcome B × S
  continue (ret a) s k = k a s
  continue (stop f) s k = (stop f, s)
  continue diverges s k = (diverges, s)

  infixl 5 ◌>>=◌ ◌>>◌
  abbrev pub ◌>>=◌ : Exec S A → (A → Exec S B) → Exec S B
  ◌>>=◌ m k s = let (r, s') = m s in continue r s' k

  abbrev pub ◌>>◌ : Exec S A → Exec S B → Exec S B
  m >> k = m >>= λ _. k

-- The same without a state.
abbrev pub bind {ℓ} : {A B : Type ℓ} → Outcome A → (A → Outcome B) → Outcome B
bind (ret a) k = k a
bind (stop f) k = stop f
bind diverges k = diverges

-- Two steps that both end make a block that ends.
pub continue-ne-diverges {ℓ} :
    {S A B : Type ℓ} (r : Outcome A) (s : S) (k : A → Exec S B)
    → r ≢ diverges
    → ((a : A) (t : S) → (k a t).0 ≢ diverges)
    → (continue r s k).0 ≢ diverges
continue-ne-diverges (ret a) s k h g = g a s
continue-ne-diverges (stop f) s k h g = ground arith
continue-ne-diverges diverges s k h g = absurd (h refl)

-- A step of the environment, in a program with a state of its own.
abbrev pub os {ℓ} : {T W A : Type ℓ} → Exec W A → Exec (T × W) A
os m (t, w) = let (r, w') = m w in (r, (t, w'))

-- A destructor that runs however the block ends.
abbrev pub finally {ℓ} : {S A : Type ℓ} → Exec S A → (S → S) → Exec S A
finally m drop s = let (r, s') = m s in (r, drop s')

-- The part of a function in which a local value has a destructor: an `Ok` moves the value out, any
-- other end runs the destructor.
abbrev pub guarding {ℓ} : {S A : Type ℓ} → Exec S (IoResult A) → Exec S Unit → Exec S (IoResult A)
guarding m drop s =
    let (r, s') = m s in
    elim r [
      | ret (ok a) ↦ (ret (ok a), s')
      | ret (err e) ↦ (drop >> pure (err e)) s'
      | stop f ↦
          let (d, t) = drop s' in
          elim d [ ret _ ↦ (stop f, t) | stop _ ↦ (stop aborted, t) | diverges ↦ (diverges, t) ]
      | diverges ↦ (diverges, s')
    ]
