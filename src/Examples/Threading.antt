-- ===== src/Examples/Threading.antt =====
-- examples/threading.rs: threads that share a `UsersCache` in a `Mutex`. The scheduler picks any
-- thread that can move, so the program is a step relation on the shared state. The sleep of `main`
-- makes no thread wait for another, so it allows every schedule; the end of the process, which
-- stops the workers that are left, is not a step.
pub mod Mutex
pub mod Invariant
pub mod Safety
pub mod Progress
use rust_users.Prelude.{
  ℕ, suc, ◌<◌, ◌≤◌, ◌≡◌, Bool, true, false, Option, none, some, List, [], ◌∷◌, ◌++◌, ◌==◌, nat_eq,
  if◌then◌else◌,
}
use rust_users.Std.Exec.{Fault, ret, stop}
use rust_users.Std.Ffi.{OsString}
use rust_users.Libc.{Libc}
use rust_users.Base.Types.{User}
use rust_users.Cache.{UsersCache, new, get_user_by_uid}

-- `LO` and `HI`
abbrev pub lo : ℕ
lo = 500

abbrev pub hi : ℕ
hi = 510

-- Where a spawned thread stands: before `lock()`, with the guard before and after the query, at
-- its end.
pub data Worker : Type 0 where
  unborn waiting holding queried finished panicked : Worker

-- Where `main` stands: in the first loop, and in the second one before `lock()`, with the guard,
-- and with the answer of the query.
pub data Main : Type 0 where
  spawning : (uid : ℕ) → Main
  reading : (uid : ℕ) → Main
  locked : (uid : ℕ) → Main
  printing : (uid : ℕ) → (answer : Option User) → Main
  exited panicked : Main

-- The thread that holds the guard of the mutex.
pub data Owner : Type 0 where
  nobody main : Owner
  worker : (uid : ℕ) → Owner

-- The two formats of `println!`.
pub data Line : Type 0 where
  user_is : (uid : ℕ) → (name : OsString) → Line
  no_user : (uid : ℕ) → Line

abbrev pub line : ℕ → Option User → Line
line uid (some u) = user_is u.uid u.name_arc
line uid none = no_user uid

abbrev update : (ℕ → Worker) → ℕ → Worker → ℕ → Worker
update f i a j = if i == j then a else f j

-- `Arc<Mutex<UsersCache>>`, the system, and the threads. A worker is named by its user ID.
pub record System (L : Libc) : Type 0 where
  pub cache : UsersCache
  pub world : L.World
  pub owner : Owner
  pub poisoned : Bool
  pub workers : ℕ → Worker
  pub main : Main
  pub printed : List Line

abbrev pub start : {L : Libc} → L.World → System L
start w = record {
  cache = new;
  world = w;
  owner = Owner.nobody;
  poisoned = false;
  workers = λ i. Worker.unborn;
  main = Main.spawning lo;
  printed = [];
}

-- `lock()` of a poisoned mutex is an `Err`, and its `unwrap` panics; a panic under the guard
-- poisons the mutex and gives the guard back. `main` does not join the threads, so each of them may
-- also run during the second loop, or never.
pub data Step {L : Libc} (s : System L) : System L → Type 0 where
  spawn :
      (uid : ℕ)
      → s.main ≡ Main.spawning uid
      → uid < hi
      → Step s (record s {
        main = Main.spawning (suc uid);
        workers = update s.workers uid Worker.waiting;
      })
  sleep :
      (uid : ℕ)
      → s.main ≡ Main.spawning uid
      → hi ≤ uid
      → Step s (record s { main = Main.reading lo })
  worker_locks :
      (i : ℕ)
      → s.workers i ≡ Worker.waiting
      → s.owner ≡ Owner.nobody
      → s.poisoned ≡ false
      → Step s (record s { owner = Owner.worker i; workers = update s.workers i Worker.holding })
  worker_unwraps :
      (i : ℕ)
      → s.workers i ≡ Worker.waiting
      → s.owner ≡ Owner.nobody
      → s.poisoned ≡ true
      → Step s (record s { workers = update s.workers i Worker.panicked })
  worker_queries :
      (i : ℕ) (answer : Option User) (c : UsersCache) (w : L.World)
      → s.workers i ≡ Worker.holding
      → get_user_by_uid L i (s.cache, s.world) ≡ (ret answer, (c, w))
      → Step s (record s { cache = c; world = w; workers = update s.workers i Worker.queried })
  worker_panics :
      (i : ℕ) (fault : Fault) (c : UsersCache) (w : L.World)
      → s.workers i ≡ Worker.holding
      → get_user_by_uid L i (s.cache, s.world) ≡ (stop fault, (c, w))
      → Step s (record s {
        cache = c;
        world = w;
        owner = Owner.nobody;
        poisoned = true;
        workers = update s.workers i Worker.panicked;
      })
  worker_unlocks :
      (i : ℕ)
      → s.workers i ≡ Worker.queried
      → Step s (record s { owner = Owner.nobody; workers = update s.workers i Worker.finished })
  main_locks :
      (uid : ℕ)
      → s.main ≡ Main.reading uid
      → uid < hi
      → s.owner ≡ Owner.nobody
      → s.poisoned ≡ false
      → Step s (record s { owner = Owner.main; main = Main.locked uid })
  main_unwraps :
      (uid : ℕ)
      → s.main ≡ Main.reading uid
      → uid < hi
      → s.owner ≡ Owner.nobody
      → s.poisoned ≡ true
      → Step s (record s { main = Main.panicked })
  main_queries :
      (uid : ℕ) (answer : Option User) (c : UsersCache) (w : L.World)
      → s.main ≡ Main.locked uid
      → get_user_by_uid L uid (s.cache, s.world) ≡ (ret answer, (c, w))
      → Step s (record s { cache = c; world = w; main = Main.printing uid answer })
  main_panics :
      (uid : ℕ) (fault : Fault) (c : UsersCache) (w : L.World)
      → s.main ≡ Main.locked uid
      → get_user_by_uid L uid (s.cache, s.world) ≡ (stop fault, (c, w))
      → Step s (record s {
        cache = c;
        world = w;
        owner = Owner.nobody;
        poisoned = true;
        main = Main.panicked;
      })
  main_prints :
      (uid : ℕ) (answer : Option User)
      → s.main ≡ Main.printing uid answer
      → Step s (record s {
        owner = Owner.nobody;
        main = Main.reading (suc uid);
        printed = s.printed ++ line uid answer ∷ [];
      })
  exit : (uid : ℕ) → s.main ≡ Main.reading uid → hi ≤ uid → Step s (record s { main = Main.exited })

-- The states that some schedule leads to.
pub data Reach {L : Libc} (s : System L) : System L → Type 0 where
  here : Reach s s
  next : {t u : System L} → Reach s t → Step t u → Reach s u
