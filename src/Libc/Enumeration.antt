-- ===== src/Libc/Enumeration.antt =====
-- What the documentation of `setpwent`, `getpwent` and `endpwent` promises, as hypotheses.
use rust_users.Prelude.{◌≡◌, none, some, List, [], ◌∷◌}
use rust_users.Libc.{Libc, Passwd}

-- `entries` is the whole database, `left` the part behind the position of the process in it.
pub record Enumeration (L : Libc) : Type 0 where
  pub entries : L.World → List Passwd
  pub left : L.World → List Passwd
  pub setpwent_rewinds : (w : L.World) → left (L.setpwent w) ≡ entries w
  pub getpwent_ends : (w : L.World) → left w ≡ [] → (L.getpwent w).0 ≡ none
  pub getpwent_reads :
      (w : L.World) (p : Passwd) (ps : List Passwd)
      → left w ≡ p ∷ ps
      → ((L.getpwent w).0 ≡ some p) × (left (L.getpwent w).1 ≡ ps)

-- What the documentation says of calls between those of one loop: the position is one for the whole
-- process, it stays at the end, `endpwent` makes the next `getpwent` start anew, and nobody edits
-- the database.
pub record OnePosition (L : Libc) (N : Enumeration L) : Type 0 where
  pub setpwent_keeps : (w : L.World) → N.entries (L.setpwent w) ≡ N.entries w
  pub getpwent_keeps : (w : L.World) → N.entries (L.getpwent w).1 ≡ N.entries w
  pub endpwent_keeps : (w : L.World) → N.entries (L.endpwent w) ≡ N.entries w
  pub getpwent_stays : (w : L.World) → N.left w ≡ [] → N.left (L.getpwent w).1 ≡ []
  pub endpwent_rewinds : (w : L.World) → N.left (L.endpwent w) ≡ N.entries w
