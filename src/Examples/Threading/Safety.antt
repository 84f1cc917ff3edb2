-- ===== src/Examples/Threading/Safety.antt =====
-- examples/threading.rs: the invariant along every schedule of the threads.
use rust_users.Prelude.{ℕ, suc, ◌≡◌, ◌≢◌, refl, Option, true, false, [], ◌∷◌, map, arith, nat_eq}
use rust_users.Std.Exec.{Fault, ret, stop}
use rust_users.Libc.{Libc}
use rust_users.Base.Types.{User}
use rust_users.Base.Directory.{Directory}
use rust_users.Cache.{UsersCache, get_user_by_uid}
use rust_users.Cache.Answers.{IsUnique, IsTrue}
use rust_users.Cache.Answers.Refines.{new-IsTrue}
use rust_users.Examples.Threading.{
  lo, hi, Worker, Main, line, update, System, start, Step, spawn, sleep, worker_locks,
  worker_unwraps, worker_queries, worker_panics, worker_unlocks, main_locks, main_unwraps,
  main_queries, main_panics, main_prints, exit, Reach, here, next,
}
use rust_users.Examples.Threading.Mutex.{
  is_critical, is_main_critical, Crew, main_goes-Locks, worker_goes-Locks, worker_takes-Locks,
  worker_gives-Locks, main_takes-Locks, main_gives-Locks, main_goes-Crew, worker_goes-Crew,
}
use rust_users.Examples.Threading.Invariant.{report, Inv, query_lem}

module _ (L : Libc) (w : L.World) (D : Directory L w) (Q : IsUnique L w D) where
  abbrev Holds : System L → Type 0
  Holds s = Inv L w D Q s

  pub start-Inv : Holds (start w)
  start-Inv = record {
    content = record { same = refl; cached = new-IsTrue L w D Q; clean = refl };
    locks = record {
      worker_owns = λ i e. cc;
      owner_works = λ i e. cc;
      main_owns = λ e. cc;
      owner_main = λ e. cc;
    };
    crew = record { unborn = λ uid i e le. refl; calm = λ i. ground arith };
    at = (omega arith, omega arith, refl);
  }

  module _ {s : System L} (h : Holds s) where
    -- The answer of a query is the directory's, and what it leaves is as it was.
    queried :
        (uid : ℕ) (answer : Option User) (c : UsersCache) (v : L.World)
        → get_user_by_uid L uid (s.cache, s.world) ≡ (ret answer, (c, v))
        → (v ≡ w) × IsTrue L w D Q c × (answer ≡ D.user_by_uid uid)
    queried uid answer c v q = ground (arith, query_lem L w D Q s uid h)

    query_returns :
        (uid : ℕ) (fault : Fault) (c : UsersCache) (v : L.World)
        → get_user_by_uid L uid (s.cache, s.world) ≢ (stop fault, (c, v))
    query_returns uid fault c v = ground (arith, query_lem L w D Q s uid h)

    spawned :
        (uid : ℕ)
        → s.main ≡ Main.spawning uid
        → Crew (update s.workers uid Worker.waiting) (Main.spawning (suc uid))
    spawned uid e = record {
      unborn = λ uid' j e' le.
          let k : suc uid ≡ uid' = ground arith in
          ground (arith, h.crew.unborn uid j e (omega arith));
      calm = λ j. ground (arith, h.crew.calm j);
    }

  Step-Inv : {s t : System L} → Holds s → Step s t → Holds t
  Step-Inv {s} h (spawn uid e lt) = record {
    content = h.content;
    locks =
        main_goes-Locks (Main.spawning (suc uid))
          (worker_goes-Locks uid Worker.waiting h.locks
            (ground (arith, h.crew.unborn uid uid e (omega arith))))
          (ground arith);
    crew = spawned h uid e;
    at = ground (arith, h.at);
  }
  Step-Inv {s} h (sleep uid e ge) = record {
    content = h.content;
    locks = main_goes-Locks (Main.reading lo) h.locks (ground arith);
    crew = main_goes-Crew (Main.reading lo) h.crew (λ i. ground arith);
    at = ground (arith, h.at);
  }
  Step-Inv {s} h (worker_locks i e free clean) = record {
    content = h.content;
    locks = worker_takes-Locks i Worker.holding h.locks free refl;
    crew = worker_goes-Crew i Worker.holding h.crew (ground arith) (ground arith);
    at = h.at;
  }
  Step-Inv {s} h (worker_unwraps i e free bad) = absurd (ground (arith, h.content.clean))
  Step-Inv {s} h (worker_queries i answer c v e q) =
      let (same, cached, _) = queried h i answer c v q in
      record {
        content = record { same = same; cached = cached; clean = h.content.clean };
        locks = worker_goes-Locks i Worker.queried h.locks (ground arith);
        crew = worker_goes-Crew i Worker.queried h.crew (ground arith) (ground arith);
        at = h.at;
      }
  Step-Inv {s} h (worker_panics i fault c v e q) = absurd (query_returns h i fault c v q)
  Step-Inv {s} h (worker_unlocks i e) = record {
    content = h.content;
    locks = worker_gives-Locks i Worker.finished h.locks (ground arith) refl;
    crew = worker_goes-Crew i Worker.finished h.crew (ground arith) (ground arith);
    at = h.at;
  }
  Step-Inv {s} h (main_locks uid e lt free clean) = record {
    content = h.content;
    locks = main_takes-Locks (Main.locked uid) h.locks free refl;
    crew = main_goes-Crew (Main.locked uid) h.crew (λ i. ground arith);
    at = ground (arith, h.at);
  }
  Step-Inv {s} h (main_unwraps uid e lt free bad) = absurd (ground (arith, h.content.clean))
  Step-Inv {s} h (main_queries uid answer c v e q) =
      let (same, cached, true_answer) = queried h uid answer c v q in
      record {
        content = record { same = same; cached = cached; clean = h.content.clean };
        locks = main_goes-Locks (Main.printing uid answer) h.locks (ground arith);
        crew = main_goes-Crew (Main.printing uid answer) h.crew (λ i. ground arith);
        at = ground (arith, h.at);
      }
  Step-Inv {s} h (main_panics uid fault c v e q) = absurd (query_returns h uid fault c v q)
  Step-Inv {s} h (main_prints uid answer e) = record {
    content = h.content;
    locks = main_gives-Locks (Main.reading (suc uid)) h.locks (ground arith) refl;
    crew = main_goes-Crew (Main.reading (suc uid)) h.crew (λ i. ground arith);
    at = ground (arith, h.at);
  }
  Step-Inv {s} h (exit uid e ge) = record {
    content = h.content;
    locks = main_goes-Locks Main.exited h.locks (ground arith);
    crew = main_goes-Crew Main.exited h.crew (λ i. ground arith);
    at = ground (arith, h.at);
  }

  pub Reach-Inv : {s t : System L} → Holds s → Reach s t → Holds t
  Reach-Inv h here = h
  Reach-Inv h (next r step) = Step-Inv (Reach-Inv h r) step

  -- Over a directory that holds still and whose IDs are unique, in every state that some schedule
  -- of the threads leads to: two workers that hold the guard of the mutex are one, and then `main`
  -- does not hold it.
  pub mutual_exclusion :
      (s : System L)
      → Reach (start w) s
      → (i j : ℕ) → is_critical (s.workers i) ≡ true
      → is_critical (s.workers j) ≡ true
      → (i ≡ j) × (is_main_critical s.main ≡ false)
  mutual_exclusion s r i j p q =
      let h = Reach-Inv start-Inv r in
      (
        ground (arith, h.locks.worker_owns i, h.locks.worker_owns j),
        ground (arith, h.locks.worker_owns i, h.locks.main_owns),
      )

  -- Over a directory that holds still and whose IDs are unique, in every state that some schedule
  -- of the threads leads to, the mutex is not poisoned and no thread has panicked.
  pub no_schedule_panics :
      (s : System L)
      → Reach (start w) s
      → (s.poisoned ≡ false) × ((i : ℕ) → s.workers i ≢ Worker.panicked) × (s.main ≢ Main.panicked)
  no_schedule_panics s r =
      let h = Reach-Inv start-Inv r in (h.content.clean, h.crew.calm, λ e. ground (arith, h.at))

  -- Over a directory that holds still and whose IDs are unique, whatever the schedule, when `main` is
  -- at its end it has printed one line for each ID from 500 to 509, in their order, each with the
  -- user that the directory holds, or that there is none.
  pub exited_prints :
      (s : System L)
      → Reach (start w) s
      → s.main ≡ Main.exited
      → s.printed
        ≡ map
            (λ uid. line uid (D.user_by_uid uid))
            (500 ∷ 501 ∷ 502 ∷ 503 ∷ 504 ∷ 505 ∷ 506 ∷ 507 ∷ 508 ∷ 509 ∷ [])
  exited_prints s r e =
      let h = Reach-Inv start-Inv r in
      let p : s.printed ≡ report L w D Q hi = ground (arith, h.at) in p
