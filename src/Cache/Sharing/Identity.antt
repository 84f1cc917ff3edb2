-- ===== src/Cache/Sharing/Identity.antt =====
-- cache.rs: which answers are the same `Arc`.
use rust_users.Prelude.{
  ℕ, ◌≡◌, refl, ap, Option, none, some, List, [], ◌∷◌, map, All, arith, Eq, ◌==◌, bytes_eq, nat_eq,
}
use rust_users.Std.Exec.{Exec, ret, pure, ◌>>=◌}
use rust_users.Std.Ffi.{OsString}
use rust_users.Std.HashMap.{get}
use rust_users.Std.Arc.{Arc, ptr_eq}
use rust_users.Cache.BiMap.{BiMap, empty}
use rust_users.Cache.BiMap.Calls.{Lookup, at_key, at_name}
use rust_users.Cache.BiMap.Closed.{empty-IsClosed}
use rust_users.Cache.BiMap.Coherent.{Source}
use rust_users.Cache.Sharing.{Shared, by_key_shared, by_name_shared}
use rust_users.Cache.Sharing.Forget.{value_of, values}
use rust_users.Cache.Sharing.Pointers.{Kept, Holds, Gives}
use rust_users.Cache.Sharing.Lookups.{by_key-Gives, by_name-Gives}

module _ {K V W : Type 0} ⦃e : Eq K⦄ (name_of : V → OsString) (key_of : V → K)
    (key_fetch : K → Exec W (Option V)) (name_fetch : OsString → Exec W (Option V)) where
  pub look_up : Lookup K → Exec (Shared K V W) (Option (Arc V))
  look_up (at_key key) = by_key_shared name_of key_fetch key
  look_up (at_name name) = by_name_shared key_of name_fetch name

  pub look_up_all : List (Lookup K) → Exec (Shared K V W) (List (Option (Arc V)))
  look_up_all [] = pure []
  look_up_all (l ∷ ls) = do a ← look_up l; found ← look_up_all ls; pure (a ∷ found)

module _ {K V : Type 0} ⦃e : Eq K⦄ (key_of : V → K) where
  -- Two answers are one allocation exactly when they have one key.
  abbrev Agree : Option (Arc V) → Option (Arc V) → Type 0
  Agree (some a) (some b) = ptr_eq a b ≡ (key_of a.value == key_of b.value)
  Agree a b = Unit {0}

  abbrev pub AllAgree : List (Option (Arc V)) → Type 0
  AllAgree [] = Unit {0}
  AllAgree (a ∷ found) = All (Agree a) found × AllAgree found

module _ {K V : Type 0} ⦃e : Eq K⦄ {name_of : V → OsString} {key_of : V → K}
    (D : Source K V name_of key_of) where
  pub answer : Lookup K → Option V
  answer (at_key key) = D.at_key key
  answer (at_name name) = D.at_name name

  -- The map holds the answer under its key.
  abbrev IsHeld : BiMap K (Arc V) → Option (Arc V) → Type 0
  IsHeld m none = Unit {0}
  IsHeld m (some a) = get (key_of a.value) m.forward.value ≡ some (some a)

  later-IsHeld : (m n : BiMap K (Arc V)) (a : Option (Arc V)) → Kept m n → IsHeld m a → IsHeld n a
  later-IsHeld m n none k h = tt
  later-IsHeld m n (some a) k h = k (key_of a.value) a h

  given-IsHeld :
      (m : BiMap K (Arc V)) (a : Option (Arc V))
      → ((b : Arc V) → a ≡ some b → get (key_of b.value) m.forward.value ≡ some (some b))
      → IsHeld m a
  given-IsHeld m none h = tt
  given-IsHeld m (some a) h = h a refl

  module _ {next : ℕ} {m : BiMap K (Arc V)} (h : Holds D next m) where
    held-Agree : (a b : Option (Arc V)) → IsHeld m a → IsHeld m b → Agree key_of a b
    unfolding ptr_eq
    held-Agree none b p q = tt
    held-Agree (some a) none p q = tt
    held-Agree (some a) (some b) p q =
        ground (arith, h.arcs.distinct (key_of a.value) (key_of b.value) a b p q)

    each-Agree :
        (a : Option (Arc V)) (bs : List (Option (Arc V)))
        → IsHeld m a
        → All (IsHeld m) bs
        → All (Agree key_of a) bs
    each-Agree a [] p q = tt
    each-Agree a (b ∷ bs) p (q, qs) = (held-Agree a b p q, each-Agree a bs p qs)

    held-AllAgree : (found : List (Option (Arc V))) → All (IsHeld m) found → AllAgree key_of found
    held-AllAgree [] p = tt
    held-AllAgree (a ∷ found) (p, ps) = (each-Agree a found p ps, held-AllAgree found ps)

  module _ {W : Type 0} (w : W) (key_fetch : K → Exec W (Option V))
      (name_fetch : OsString → Exec W (Option V))
      (reads_key : (key : K) → key_fetch key w ≡ (ret (D.at_key key), w))
      (reads_name : (name : OsString) → name_fetch name w ≡ (ret (D.at_name name), w))
      (exact : (name : OsString) (v : V) → D.at_name name ≡ some v → name_of v ≡ name) where
    abbrev looks_up : List (Lookup K) → Exec (Shared K V W) (List (Option (Arc V)))
    looks_up = look_up_all name_of key_of key_fetch name_fetch

    look_up-Gives :
        (l : Lookup K) {next : ℕ} {m : BiMap K (Arc V)}
        → Holds D next m
        → Gives D w next m (answer l) (look_up name_of key_of key_fetch name_fetch l (m, (next, w)))
    unfolding look_up answer
    look_up-Gives (at_key key) h = by_key-Gives D w h key_fetch key (reads_key key)
    look_up-Gives (at_name name) h =
        by_name-Gives D w h name_fetch name (reads_name name) (exact name)

    look_up_all_lem :
        (ls : List (Lookup K)) {next : ℕ} {m : BiMap K (Arc V)}
        → Holds D next m
        → (found : List (Option (Arc V))) × (m' : BiMap K (Arc V)) × (next' : ℕ) × (looks_up ls
              (m, (next, w))
            ≡ (ret found, (m', (next', w))))
          × (map value_of found ≡ map answer ls)
          × Holds D next' m'
          × Kept m m'
          × All (IsHeld m') found
    unfolding look_up_all
    look_up_all_lem [] {next} {m} h = ([], m, next, refl, refl, h, (λ k b q. q), tt)
    look_up_all_lem (l ∷ ls) h =
        let (a, m', next', p, v, h', k, f) = look_up-Gives l h in
        let (found, m'', next'', p', vs, h'', k', fs) = look_up_all_lem ls h' in
        (
          a ∷ found,
          m'',
          next'',
          ground arith,
          cc,
          h'',
          (λ key b q. k' key b (k key b q)),
          (later-IsHeld m' m'' a k' (given-IsHeld m' a f), fs),
        )

    empty-Holds : Holds D 0 empty
    unfolding get values
    empty-Holds = record {
      true_values = record {
        closed = empty-IsClosed;
        key_true = λ key r p. cc;
        absent_true = λ name p. cc;
        name_true = λ name key p. cc;
      };
      arcs = record {
        linked = λ key a p. cc;
        below = λ key a p. absurd (cc);
        distinct = λ j k a b p q r. cc;
      };
    }

    -- Lookups by key and by name in any order, through a new cache and over a directory that holds
    -- still, whose keys are unique (a value is found by its own key and name, whichever it was found
    -- by) and that finds a value by no other key or name than its own: each answers as the directory
    -- does, and two of the `Arc`s are one allocation exactly when their values have one key.
    pub one_arc :
        (ls : List (Lookup K))
        → (found : List (Option (Arc V))) × ((looks_up ls (empty, (0, w))).0 ≡ ret found)
          × (map value_of found ≡ map answer ls)
          × AllAgree key_of found
    one_arc ls =
        let (found, m', next', p, v, h, _, f) = look_up_all_lem ls empty-Holds in
        (found, ap (λ r. r.0) p, v, held-AllAgree h found f)
