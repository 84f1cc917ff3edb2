-- ===== src/Examples/Threading/Mutex.antt =====
-- What every step keeps: who holds the mutex, and which workers there are.
use rust_users.Prelude.{ℕ, ◌≤◌, ◌≡◌, ◌≢◌, Bool, true, false, arith, nat_eq}
use rust_users.Examples.Threading.{Worker, Main, Owner, update}

-- Whether the thread holds the guard.
abbrev pub is_critical : Worker → Bool
is_critical Worker.holding = true
is_critical Worker.queried = true
is_critical _ = false

abbrev pub is_main_critical : Main → Bool
is_main_critical (Main.locked _) = true
is_main_critical (Main.printing _ _) = true
is_main_critical _ = false

-- Who holds the mutex: whoever stands where its guard is alive, and nobody else.
pub record Locks (owner : Owner) (workers : ℕ → Worker) (main : Main) : Type 0 where
  pub worker_owns : (i : ℕ) → is_critical (workers i) ≡ true → owner ≡ Owner.worker i
  pub owner_works : (i : ℕ) → owner ≡ Owner.worker i → is_critical (workers i) ≡ true
  pub main_owns : is_main_critical main ≡ true → owner ≡ Owner.main
  pub owner_main : owner ≡ Owner.main → is_main_critical main ≡ true

-- Workers exist from the loop that spawns them on, and none has panicked.
pub record Crew (workers : ℕ → Worker) (main : Main) : Type 0 where
  pub unborn : (uid i : ℕ) → main ≡ Main.spawning uid → uid ≤ i → workers i ≡ Worker.unborn
  pub calm : (i : ℕ) → workers i ≢ Worker.panicked

module _ {owner : Owner} {workers : ℕ → Worker} {main : Main} where
  -- A worker goes on, and holds the guard as before.
  pub worker_goes-Locks :
      (i : ℕ) (x : Worker)
      → Locks owner workers main
      → is_critical x ≡ is_critical (workers i)
      → Locks owner (update workers i x) main
  worker_goes-Locks i x h e = record {
    worker_owns = λ j. ground (arith, h.worker_owns j);
    owner_works = λ j. ground (arith, h.owner_works j);
    main_owns = h.main_owns;
    owner_main = h.owner_main;
  }

  pub main_goes-Locks :
      (m : Main)
      → Locks owner workers main
      → is_main_critical m ≡ is_main_critical main
      → Locks owner workers m
  main_goes-Locks m h e = record {
    worker_owns = h.worker_owns;
    owner_works = h.owner_works;
    main_owns = ground (arith, h.main_owns);
    owner_main = ground (arith, h.owner_main);
  }

  -- The mutex is free, and a thread takes it.
  pub worker_takes-Locks :
      (i : ℕ) (x : Worker)
      → Locks owner workers main
      → owner ≡ Owner.nobody
      → is_critical x ≡ true
      → Locks (Owner.worker i) (update workers i x) main
  worker_takes-Locks i x h free c = record {
    worker_owns = λ j. ground (arith, h.worker_owns j);
    owner_works = λ j. ground arith;
    main_owns = ground (arith, h.main_owns);
    owner_main = ground arith;
  }

  pub main_takes-Locks :
      (m : Main)
      → Locks owner workers main
      → owner ≡ Owner.nobody
      → is_main_critical m ≡ true
      → Locks Owner.main workers m
  main_takes-Locks m h free c = record {
    worker_owns = λ j. ground (arith, h.worker_owns j);
    owner_works = λ j. ground arith;
    main_owns = ground arith;
    owner_main = ground arith;
  }

  -- The thread that holds it gives it back.
  pub worker_gives-Locks :
      (i : ℕ) (x : Worker)
      → Locks owner workers main
      → is_critical (workers i) ≡ true
      → is_critical x ≡ false
      → Locks Owner.nobody (update workers i x) main
  worker_gives-Locks i x h c d = record {
    worker_owns = λ j. ground (arith, h.worker_owns j, h.worker_owns i);
    owner_works = λ j. ground arith;
    main_owns = ground (arith, h.main_owns, h.worker_owns i);
    owner_main = ground arith;
  }

  pub main_gives-Locks :
      (m : Main)
      → Locks owner workers main
      → is_main_critical main ≡ true
      → is_main_critical m ≡ false
      → Locks Owner.nobody workers m
  main_gives-Locks m h c d = record {
    worker_owns = λ j. ground (arith, h.worker_owns j, h.main_owns);
    owner_works = λ j. ground arith;
    main_owns = ground arith;
    owner_main = ground arith;
  }

module _ {workers : ℕ → Worker} {main : Main} where
  -- A worker that was spawned goes on.
  pub worker_goes-Crew :
      (i : ℕ) (x : Worker)
      → Crew workers main
      → workers i ≢ Worker.unborn
      → x ≢ Worker.panicked
      → Crew (update workers i x) main
  worker_goes-Crew i x h born calm = record {
    unborn = λ uid j. ground (arith, h.unborn uid j);
    calm = λ j. ground (arith, h.calm j);
  }

  -- `main` goes on, and is not in the loop that spawns them.
  pub main_goes-Crew :
      (m : Main) → Crew workers main → ((uid : ℕ) → m ≢ Main.spawning uid) → Crew workers m
  main_goes-Crew m h late = record { unborn = λ uid i e. absurd (late uid e); calm = h.calm }
