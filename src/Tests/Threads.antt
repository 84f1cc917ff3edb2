-- ===== src/Tests/Threads.antt =====
-- examples/threading.rs on the small system.
use rust_users.Prelude.{ℕ, ◌≡◌, ◌≢◌, refl, false, [], ◌∷◌, map, arith, nat_eq}
use rust_users.Examples.Threading.{
  Worker, Main, System, start, spawn, worker_locks, Reach, here, next, line,
}
use rust_users.Examples.Threading.Mutex.{is_main_critical}
use rust_users.Examples.Threading.Safety.{mutual_exclusion, no_schedule_panics, exited_prints}
use rust_users.Examples.Threading.Progress.{can_exit}
use rust_users.Tests.System.{toy, as_fred}
use rust_users.Tests.Readable.{toy_directory}
use rust_users.Tests.Unique.{toy_unique}

-- The first worker is spawned, and has the mutex.
abbrev begun : System toy
begun = start as_fred

abbrev busy : (t : System toy) × Reach begun t
busy =
    (_, next (next here (spawn 500 refl (omega arith))) (worker_locks 500 (ground arith) refl refl))

mutual_exclusion_example : (◌≡◌ {A = ℕ} 500 500) × (is_main_critical busy.0.main ≡ false)
mutual_exclusion_example =
    mutual_exclusion toy as_fred (toy_directory as_fred) (toy_unique as_fred) busy.0 busy.1 500 500
      (ground arith) (ground arith)

no_schedule_panics_example :
    (busy.0.poisoned ≡ false)
    × ((i : ℕ) → busy.0.workers i ≢ Worker.panicked)
    × (busy.0.main ≢ Main.panicked)
no_schedule_panics_example =
    no_schedule_panics toy as_fred (toy_directory as_fred) (toy_unique as_fred) busy.0 busy.1

can_exit_example : (t : System toy) × Reach busy.0 t × (t.main ≡ Main.exited)
can_exit_example = can_exit toy as_fred (toy_directory as_fred) (toy_unique as_fred) busy.0 busy.1

abbrev ended : (t : System toy) × Reach begun t × (t.main ≡ Main.exited)
ended = can_exit toy as_fred (toy_directory as_fred) (toy_unique as_fred) begun here

exited_prints_example :
    ended.0.printed
    ≡ map
        (λ uid. line uid ((toy_directory as_fred).user_by_uid uid))
        (500 ∷ 501 ∷ 502 ∷ 503 ∷ 504 ∷ 505 ∷ 506 ∷ 507 ∷ 508 ∷ 509 ∷ [])
exited_prints_example =
    exited_prints toy as_fred (toy_directory as_fred) (toy_unique as_fred) ended.0 ended.1 ended.2
