-- ===== src/Examples/Threading/Progress.antt =====
-- examples/threading.rs: the steps that are left to `main`, and schedules that let it take them.
use native.Mathlib.Decide.{dec_lt}
use rust_users.Prelude.{
  ℕ, zero, suc, ◌+◌, ◌*◌, ◌-◌, ◌≤◌, ◌<◌, ◌≡◌, ◌≢◌, ◌⊎◌, inl, inr, refl, true, false, arith, nat_eq,
}
use rust_users.Libc.{Libc}
use rust_users.Base.Directory.{Directory}
use rust_users.Cache.Answers.{IsUnique}
use rust_users.Examples.Threading.{
  hi, Worker, Main, Owner, System, start, spawn, sleep, worker_queries, worker_unlocks, main_locks,
  main_queries, main_prints, exit, Reach, here, next,
}
use rust_users.Examples.Threading.Mutex.{is_critical, is_main_critical}
use rust_users.Examples.Threading.Invariant.{Inv, query_lem}
use rust_users.Examples.Threading.Safety.{start-Inv, Reach-Inv}

-- The steps of `main` that are left.
abbrev left : Main → ℕ
left (Main.spawning uid) = hi - uid + 40
left (Main.reading uid) = 3 * (hi - uid) + 1
left (Main.locked uid) = 3 * (hi - uid)
left (Main.printing uid answer) = 3 * (hi - uid) - 1
left Main.exited = 0
left Main.panicked = 0

is_exited : (m : Main) → (m ≡ Main.exited) ⊎ (m ≢ Main.exited)
is_exited Main.exited = inl refl
is_exited (Main.spawning uid) = inr (ground arith)
is_exited (Main.reading uid) = inr (ground arith)
is_exited (Main.locked uid) = inr (ground arith)
is_exited (Main.printing uid answer) = inr (ground arith)
is_exited Main.panicked = inr (ground arith)

Reach_trans : {L : Libc} {s t u : System L} → Reach s t → Reach t u → Reach s u
Reach_trans r here = r
Reach_trans r (next q step) = next (Reach_trans r q) step

module _ (L : Libc) (w : L.World) (D : Directory L w) (Q : IsUnique L w D) where
  abbrev Holds : System L → Type 0
  Holds s = Inv L w D Q s

  -- A worker under the mutex can go on and unlock it, while `main` stays where it is.
  unlocks :
      (s : System L) (i : ℕ)
      → Holds s
      → is_critical (s.workers i) ≡ true
      → (t : System L) × Reach s t × (t.owner ≡ Owner.nobody) × (t.main ≡ s.main)
  unlocks s i h c = elim (cases (s.workers i) c) [
    | inl e ↦
        let (cache, q, t) = query_lem L w D Q s i h in
        (
          _,
          next (next here (worker_queries i (D.user_by_uid i) cache w e q))
              (worker_unlocks i (ground arith)),
          refl,
          refl,
        )
    | inr e ↦ (_, next here (worker_unlocks i e), refl, refl)
  ]
    where
      cases : (x : Worker) → is_critical x ≡ true → (x ≡ Worker.holding) ⊎ (x ≡ Worker.queried)
      cases x p = ground arith

  -- So `main` can always have the mutex.
  frees :
      (s : System L)
      → Holds s
      → is_main_critical s.main ≡ false
      → (t : System L) × Reach s t × (t.owner ≡ Owner.nobody) × (t.main ≡ s.main)
  frees s h c = by_owner s.owner refl
    where
      by_owner :
          (o : Owner)
          → s.owner ≡ o
          → (t : System L) × Reach s t × (t.owner ≡ Owner.nobody) × (t.main ≡ s.main)
      by_owner Owner.nobody e = (s, here, e, refl)
      by_owner Owner.main e = absurd (ground (arith, h.locks.owner_main))
      by_owner (Owner.worker i) e = unlocks s i h (h.locks.owner_works i e)

  moves :
      (s : System L)
      → Holds s
      → s.main ≢ Main.exited
      → (t : System L) × Reach s t × (left t.main < left s.main)
  moves s h go = by_main s.main refl
    where
      by_main : (m : Main) → s.main ≡ m → (t : System L) × Reach s t × (left t.main < left s.main)
      by_main (Main.spawning uid) e = elim (dec_lt uid hi) [
        | yes lt ↦ (_, next here (spawn uid e lt), ground arith)
        | no ge ↦ (_, next here (sleep uid e (omega arith)), ground arith)
      ]
      by_main (Main.reading uid) e = elim (dec_lt uid hi) [
        | yes lt ↦
            let (t, r, free, at) = frees s h (ground arith) in
            let clean = (Reach-Inv L w D Q h r).content.clean in
            (_, next r (main_locks uid (ground arith) lt free clean), ground arith)
        | no ge ↦ (_, next here (exit uid e (omega arith)), ground arith)
      ]
      by_main (Main.locked uid) e =
          let (cache, q, t) = query_lem L w D Q s uid h in
          (_, next here (main_queries uid (D.user_by_uid uid) cache w e q), ground (arith, h.at))
      by_main (Main.printing uid answer) e =
          (_, next here (main_prints uid answer e), ground (arith, h.at))
      by_main Main.exited e = absurd (go e)
      by_main Main.panicked e = absurd (ground (arith, h.at))

  finishes :
      (n : ℕ) (s : System L)
      → Holds s
      → left s.main ≤ n
      → (t : System L) × Reach s t × (t.main ≡ Main.exited)
  finishes zero s h le = elim (is_exited s.main) [
    | inl e ↦ (s, here, e)
    | inr go ↦ let (t, r, lt) = moves s h go in absurd (omega arith)
  ]
  finishes (suc n) s h le = elim (is_exited s.main) [
    | inl e ↦ (s, here, e)
    | inr go ↦
        let (t, r, lt) = moves s h go in
        let (u, q, e) = finishes n t (Reach-Inv L w D Q h r) (omega arith) in
        (u, Reach_trans r q, e)
  ]

  -- Over a directory that holds still and whose IDs are unique: from every state that some schedule
  -- leads to, some schedule leads on to the end of `main`. So no thread locks `main` out for good.
  pub can_exit :
      (s : System L) → Reach (start w) s → (t : System L) × Reach s t × (t.main ≡ Main.exited)
  can_exit s r = finishes (left s.main) s (Reach-Inv L w D Q (start-Inv L w D Q) r) (omega arith)
