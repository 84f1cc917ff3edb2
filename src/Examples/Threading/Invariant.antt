-- ===== src/Examples/Threading/Invariant.antt =====
-- What holds in every state of the threads, over a directory that holds still.
use rust_users.Prelude.{
  ℕ, zero, suc, ◌≤◌, ◌<◌, ◌≡◌, ltb, Bool, false, List, [], ◌∷◌, ◌++◌, nat_eq, if◌then◌else◌,
}
use rust_users.Std.Exec.{ret}
use rust_users.Libc.{Libc}
use rust_users.Base.Directory.{Directory}
use rust_users.Cache.{UsersCache, get_user_by_uid}
use rust_users.Cache.Answers.{IsUnique, IsTrue}
use rust_users.Cache.Answers.Methods.{get_user_by_uid-Gives}
use rust_users.Examples.Threading.Mutex.{Locks, Crew}
use rust_users.Examples.Threading.{lo, hi, Main, Line, line, System}

module _ (L : Libc) (w : L.World) (D : Directory L w) (Q : IsUnique L w D) where
  -- The lines for the IDs from `lo` up to, and without, this one.
  abbrev pub report : ℕ → List Line
  report zero = []
  report (suc uid) = if ltb uid lo then [] else report uid ++ line uid (D.user_by_uid uid) ∷ []

  -- What `main` has printed, and that it is within the range.
  abbrev IsAt : List Line → Main → Type 0
  IsAt out (Main.spawning uid) = (lo ≤ uid) × (uid ≤ hi) × (out ≡ [])
  IsAt out (Main.reading uid) = (lo ≤ uid) × (uid ≤ hi) × (out ≡ report uid)
  IsAt out (Main.locked uid) = (lo ≤ uid) × (uid < hi) × (out ≡ report uid)
  IsAt out (Main.printing uid answer) =
      (lo ≤ uid) × (uid < hi) × (out ≡ report uid) × (answer ≡ D.user_by_uid uid)
  IsAt out Main.exited = out ≡ report hi
  IsAt out Main.panicked = ⊥

  -- The world stays as it is, what is cached is true, and the mutex is not poisoned.
  pub record Content (cache : UsersCache) (world : L.World) (poisoned : Bool) : Type 0 where
    pub same : world ≡ w
    pub cached : IsTrue L w D Q cache
    pub clean : poisoned ≡ false

  pub record Inv (s : System L) : Type 0 where
    pub content : Content s.cache s.world s.poisoned
    pub locks : Locks s.owner s.workers s.main
    pub crew : Crew s.workers s.main
    pub at : IsAt s.printed s.main

  -- A query under the invariant: the answer of the directory, and a true cache.
  pub query_lem :
      (s : System L) (uid : ℕ)
      → Inv s
      → (c : UsersCache) × (get_user_by_uid L uid (s.cache, s.world)
          ≡ (ret (D.user_by_uid uid), (c, w)))
        × IsTrue L w D Q c
  query_lem s uid h =
      let m = get_user_by_uid L uid (s.cache, w) in
      let (r, same, t) = get_user_by_uid-Gives L w D Q uid s.cache h.content.cached in
      (m.1.0, rw h.content.same (λ i. (r i, (m.1.0, same i))), t)
