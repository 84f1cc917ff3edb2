-- ===== src/Std/Keeps.antt =====
-- Properties of the state that a computation keeps, whatever its end.
use rust_users.Std.Exec.{
  Exec, Outcome, ret, stop, diverges, continue, IoResult, ok, err, pure, guarding, ◌>>=◌,
}

module _ {S : Type 0} (I : S → Type 0) where
  abbrev pub Keeps : {A : Type 0} → Exec S A → Type 0
  Keeps m = (s : S) → I s → I (m s).1

  continue-Keeps :
      {A B : Type 0} (r : Outcome A) (s : S) (k : A → Exec S B)
      → ((a : A) → Keeps (k a))
      → I s
      → I (continue r s k).1
  continue-Keeps (ret a) s k h i = h a s i
  continue-Keeps (stop f) s k h i = i
  continue-Keeps diverges s k h i = i

  pub bind-Keeps :
      {A B : Type 0} (m : Exec S A) (k : A → Exec S B)
      → Keeps m
      → ((a : A) → Keeps (k a))
      → Keeps (m >>= k)
  bind-Keeps m k h g s i = continue-Keeps (m s).0 (m s).1 k g (h s i)

  pub guarding-Keeps :
      {A : Type 0} (m : Exec S (IoResult A)) (drop : Exec S Unit)
      → Keeps m
      → Keeps drop
      → Keeps (guarding m drop)
  guarding-Keeps {A} m drop h g s i = ended (m s) (h s i)
    where
      ended : (q : Outcome (IoResult A) × S) → I q.1 → I (guarding (λ t. q) drop s).1
      ended (ret (ok a), t) i = i
      ended (ret (err e), t) i =
          bind-Keeps drop (λ d. pure {A = IoResult A} (err e)) g (λ d v j. j) t i
      ended (stop f, t) i = dropped (drop t) (g t i)
        where
          dropped :
              (q : Outcome Unit × S) → I q.1 → I (guarding {A = A} (λ t. (stop f, t)) (λ t. q) t).1
          dropped (ret d, t) i = i
          dropped (stop f, t) i = i
          dropped (diverges, t) i = i
      ended (diverges, t) i = i
