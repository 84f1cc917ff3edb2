-- ===== src/Libc.antt =====
-- The C library: what src/base.rs and src/switch.rs call through `libc`, and `setreuid` and
-- `setregid`, which src/switch.rs declares itself. None of it is code of this repository, so it is
-- a parameter: operations on a state `World` that is left open (the process, the databases, the
-- position of `getpwent`). The modules below name what its documentation promises.
pub mod Database
pub mod Lists
pub mod Enumeration
pub mod Posix
pub mod Identity
use rust_users.Prelude.{ℕ, List, Option}
use rust_users.Prelude.Int.{ℤ}
use rust_users.Std.Ffi.{CharPtr}

-- `libc::passwd`, the fields that Linux has.
pub record Passwd : Type 0 where
  pub pw_name : CharPtr
  pub pw_passwd : CharPtr
  pub pw_uid : ℕ
  pub pw_gid : ℕ
  pub pw_dir : CharPtr
  pub pw_shell : CharPtr

-- A `*mut *mut c_char`: null, or the pointers that stand from the address on.
pub data ArrayPtr : Type 0 where
  null : ArrayPtr
  at : List CharPtr → ArrayPtr

-- `libc::group`
pub record CGroup : Type 0 where
  pub gr_name : CharPtr
  pub gr_gid : ℕ
  pub gr_mem : ArrayPtr

-- What the pointer `result` is after a call of a `get…_r` function: null, the address of the
-- struct that was passed in, or any other address.
pub data ResultPtr : Type 0 where
  null input other : ResultPtr

-- The return value of a `get…_r` function, and the variables that it writes through pointers.
pub record Reply (C : Type 0) : Type 0 where
  pub code : ℕ
  pub result : ResultPtr
  pub struct : C

abbrev pub Query : Type 0 → Type 0 → Type 0 → Type 0
Query W K C = K → ℕ → W → Reply C × W

-- `libc::ERANGE` on Linux
abbrev pub erange : ℕ
erange = 34

-- The `get…_r` functions take the key and the length of the buffer, `getgroups` the size and the
-- array, `getgrouplist` the name, the group, the array and `count`; the array comes back as the
-- call leaves it. The `set…id` functions return the `c_int` of the call.
pub record Libc : Type 1 where
  pub World : Type 0
  pub getpwuid_r : Query World ℕ Passwd
  pub getpwnam_r : Query World (List ℕ) Passwd
  pub getgrgid_r : Query World ℕ CGroup
  pub getgrnam_r : Query World (List ℕ) CGroup
  pub getuid : World → ℕ
  pub geteuid : World → ℕ
  pub getgid : World → ℕ
  pub getegid : World → ℕ
  pub getgroups : ℕ → List ℕ → World → ℤ × List ℕ × World
  pub getgrouplist : List ℕ → ℕ → List ℕ → ℕ → World → ℤ × List ℕ × World
  pub setpwent : World → World
  pub getpwent : World → Option Passwd × World
  pub endpwent : World → World
  pub setuid : ℕ → World → ℤ × World
  pub setgid : ℕ → World → ℤ × World
  pub seteuid : ℕ → World → ℤ × World
  pub setegid : ℕ → World → ℤ × World
  pub setreuid : ℕ → ℕ → World → ℤ × World
  pub setregid : ℕ → ℕ → World → ℤ × World
  pub errno : World → ℕ
