-- ===== src/Libc/Database.antt =====
-- What the documentation of the `get…_r` functions promises, as hypotheses. `entry` is the record
-- that the database holds for a key, `needed` the size of the buffer that its strings take.
use rust_users.Prelude.{ℕ, ◌<◌, ◌≤◌, ◌≡◌, ◌≢◌, ◌++◌, ◌∷◌, false, Option, none, some, List}
use rust_users.Std.Ffi.{OsString, CharPtr, has_nul}
use rust_users.Libc.{Libc, Passwd, CGroup, ResultPtr, Query, erange}

-- A query reads the database and changes nothing. It returns `ERANGE` for a buffer that is too
-- small; else it hands out the record, or sets `result` to null.
pub record Serves {W K C : Type 0} (query : Query W K C) (entry : W → K → Option C)
    (needed : W → K → ℕ) : Type 0 where
  pub keeps : (k : K) (len : ℕ) (w : W) → (query k len w).1 ≡ w
  pub small : (k : K) (len : ℕ) (w : W) → len < needed w k → (query k len w).0.code ≡ erange
  pub absent :
      (k : K) (len : ℕ) (w : W)
      → needed w k ≤ len
      → entry w k ≡ none
      → ((query k len w).0.code ≢ erange) × ((query k len w).0.result ≡ ResultPtr.null)
  pub found :
      (k : K) (len : ℕ) (w : W) (c : C)
      → needed w k ≤ len
      → entry w k ≡ some c
      → (query k len w).0 ≡ record { code = 0; result = ResultPtr.input; struct = c }

-- A name reaches C with a zero at its end.
pub record Database (L : Libc) : Type 0 where
  pub user_by_uid : L.World → ℕ → Option Passwd
  pub user_by_name : L.World → List ℕ → Option Passwd
  pub group_by_gid : L.World → ℕ → Option CGroup
  pub group_by_name : L.World → List ℕ → Option CGroup
  pub uid_needs : L.World → ℕ → ℕ
  pub name_needs : L.World → List ℕ → ℕ
  pub gid_needs : L.World → ℕ → ℕ
  pub groupname_needs : L.World → List ℕ → ℕ
  pub serves_uid : Serves L.getpwuid_r user_by_uid uid_needs
  pub serves_name : Serves L.getpwnam_r user_by_name name_needs
  pub serves_gid : Serves L.getgrgid_r group_by_gid gid_needs
  pub serves_groupname : Serves L.getgrnam_r group_by_name groupname_needs

-- The pointer is the address of the C string `s`, whatever stands behind its zero.
abbrev pub Holds : CharPtr → OsString → Type 0
Holds p s = (rest : List ℕ) × (p ≡ CharPtr.at (s ++ 0 ∷ rest)) × (has_nul s ≡ false)
