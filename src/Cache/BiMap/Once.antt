-- ===== src/Cache/BiMap/Once.antt =====
-- How often the lookups through a map go to the system.
use rust_users.Prelude.{
  ℕ, suc, ◌≤◌, ◌≡◌, refl, Option, none, some, List, [], ◌∷◌, arith, Eq, ◌==◌, bytes_eq, nat_eq,
  if◌then◌else◌,
}
use rust_users.Std.Exec.{Exec, Outcome, ret, stop, diverges, continue, pure, ◌>>=◌}
use rust_users.Std.Ffi.{OsString}
use rust_users.Std.HashMap.{get, get-insert}
use rust_users.Cache.BiMap.{BiMap, by_key, by_name, empty}
use rust_users.Cache.BiMap.Calls.{Lookup, at_key, at_name, look_up, look_up_all}

-- A number that the world shows was counted at most once, and not at all while `missing` says that
-- there is no entry; after a panic nothing is known of the entry.
module _ {K V W : Type 0} (missing : BiMap K V → Type 0) (count : W → ℕ) where
  abbrev IsOnce : BiMap K V → W → Type 0
  IsOnce m w = (count w ≤ 1) × (missing m → count w ≡ 0)

  abbrev After : {A : Type 0} → Outcome A × (BiMap K V × W) → Type 0
  After (ret a, (m, w)) = IsOnce m w
  After (r, (m, w)) = count w ≤ 1

module _ {K V W : Type 0} ⦃e : Eq K⦄ (name_of : V → OsString) (key_of : V → K)
    (key_fetch : K → Exec W (Option V)) (name_fetch : OsString → Exec W (Option V))
    (count : W → ℕ) where
  module _ (key : K)
      (adds : (k : K) (w : W)
        → count (key_fetch k w).1 ≤ (if k == key then suc (count w) else count w))
      (keeps : (n : OsString) (w : W) → count (name_fetch n w).1 ≡ count w) where
    abbrev NoKey : BiMap K V → Type 0
    NoKey m = get key m.forward.value ≡ none

    by_key-After :
        (k : K) (m : BiMap K V) (w : W)
        → IsOnce NoKey count m w
        → After NoKey count (by_key name_of key_fetch k (m, w))
    unfolding by_key
    by_key-After k m w h = fetched (key_fetch k w).0 refl
      where
        fetched :
            (r : Outcome (Option V))
            → (key_fetch k w).0 ≡ r
            → After NoKey count (by_key name_of key_fetch k (m, w))
        fetched (ret none) p = ground (arith, adds k w, get-insert key k none m.forward.value)
        fetched (ret (some v)) p =
            ground (arith, adds k w, get-insert key k (some v) m.forward.value)
        fetched (stop f) p = ground (arith, adds k w)
        fetched diverges p = ground (arith, adds k w)

    by_name_keeps :
        (n : OsString) (m : BiMap K V) (w : W)
        → IsOnce NoKey count m w
        → After NoKey count (by_name key_of name_fetch n (m, w))
    unfolding by_name
    by_name_keeps n m w h = fetched (name_fetch n w).0 refl
      where
        fetched :
            (r : Outcome (Option V))
            → (name_fetch n w).0 ≡ r
            → After NoKey count (by_name key_of name_fetch n (m, w))
        fetched (ret none) p = ground (arith, keeps n w)
        fetched (ret (some v)) p =
            ground (arith, keeps n w, get-insert key (key_of v) (some v) m.forward.value)
        fetched (stop f) p = ground (arith, keeps n w)
        fetched diverges p = ground (arith, keeps n w)

    look_up-After :
        (l : Lookup K) (m : BiMap K V) (w : W)
        → IsOnce NoKey count m w
        → After NoKey count (look_up name_of key_of key_fetch name_fetch l (m, w))
    unfolding look_up
    look_up-After (at_key k) m w h = by_key-After k m w h
    look_up-After (at_name n) m w h = by_name_keeps n m w h

  module _ (name : OsString)
      (adds : (n : OsString) (w : W)
        → count (name_fetch n w).1 ≤ (if n == name then suc (count w) else count w))
      (keeps : (k : K) (w : W) → count (key_fetch k w).1 ≡ count w) where
    abbrev NoName : BiMap K V → Type 0
    NoName m = get name m.backward.value ≡ none

    by_name-After :
        (n : OsString) (m : BiMap K V) (w : W)
        → IsOnce NoName count m w
        → After NoName count (by_name key_of name_fetch n (m, w))
    unfolding by_name
    by_name-After n m w h = fetched (name_fetch n w).0 refl
      where
        fetched :
            (r : Outcome (Option V))
            → (name_fetch n w).0 ≡ r
            → After NoName count (by_name key_of name_fetch n (m, w))
        fetched (ret none) p = ground (arith, adds n w, get-insert name n none m.backward.value)
        fetched (ret (some v)) p =
            ground (arith, adds n w, get-insert name n (some (key_of v)) m.backward.value)
        fetched (stop f) p = ground (arith, adds n w)
        fetched diverges p = ground (arith, adds n w)

    by_key_keeps :
        (k : K) (m : BiMap K V) (w : W)
        → IsOnce NoName count m w
        → After NoName count (by_key name_of key_fetch k (m, w))
    unfolding by_key
    by_key_keeps k m w h = fetched (key_fetch k w).0 refl
      where
        fetched :
            (r : Outcome (Option V))
            → (key_fetch k w).0 ≡ r
            → After NoName count (by_key name_of key_fetch k (m, w))
        fetched (ret none) p = ground (arith, keeps k w)
        fetched (ret (some v)) p =
            ground (arith, keeps k w, get-insert name (name_of v) (some k) m.backward.value)
        fetched (stop f) p = ground (arith, keeps k w)
        fetched diverges p = ground (arith, keeps k w)

    look_up_name-After :
        (l : Lookup K) (m : BiMap K V) (w : W)
        → IsOnce NoName count m w
        → After NoName count (look_up name_of key_of key_fetch name_fetch l (m, w))
    unfolding look_up
    look_up_name-After (at_key k) m w h = by_key_keeps k m w h
    look_up_name-After (at_name n) m w h = by_name-After n m w h

  -- A run of lookups, each of which counts at most once.
  module _ (missing : BiMap K V → Type 0)
      (step : (l : Lookup K) (m : BiMap K V) (w : W)
        → IsOnce missing count m w
        → After missing count (look_up name_of key_of key_fetch name_fetch l (m, w))) where
    end-le :
        {A B : Type 0} (f : A → B) (r : Outcome A) (m : BiMap K V) (w : W)
        → count w ≤ 1
        → count (continue {S = BiMap K V × W} r (m, w) (λ a. pure (f a))).1.1 ≤ 1
    end-le f (ret a) m w h = h
    end-le f (stop fault) m w h = h
    end-le f diverges m w h = h

    rest-le :
        (l : Lookup K) (ls : List (Lookup K)) (q : Outcome (Option V) × (BiMap K V × W))
        → After missing count q
        → ((m : BiMap K V) (w : W)
            → IsOnce missing count m w
            → count (look_up_all name_of key_of key_fetch name_fetch ls (m, w)).1.1 ≤ 1)
        → count
            (continue q.0 q.1 (λ a.
              (look_up_all name_of key_of key_fetch name_fetch ls >>= λ rest. pure (a ∷ rest)))).1.1
          ≤ 1
    rest-le l ls (ret a, (m, w)) h ih =
        let (r, (m', w')) = look_up_all name_of key_of key_fetch name_fetch ls (m, w) in
        end-le (λ rest. a ∷ rest) r m' w' (ih m w h)
    rest-le l ls (stop f, (m, w)) h ih = h
    rest-le l ls (diverges, (m, w)) h ih = h

    look_up_all-le :
        (ls : List (Lookup K)) (m : BiMap K V) (w : W)
        → IsOnce missing count m w
        → count (look_up_all name_of key_of key_fetch name_fetch ls (m, w)).1.1 ≤ 1
    unfolding look_up_all
    look_up_all-le [] m w h = h.0
    look_up_all-le (l ∷ ls) m w h =
        rest-le l ls (look_up name_of key_of key_fetch name_fetch l (m, w)) (step l m w h)
          (look_up_all-le ls)

  abbrev count_after : List (Lookup K) → W → ℕ
  count_after ls w = count (look_up_all name_of key_of key_fetch name_fetch ls (empty, w)).1.1

  -- What a fetch by one key adds, and nothing else does, is counted once in a run on an empty map.
  pub key_once :
      (key : K)
      → ((k : K) (w : W) → count (key_fetch k w).1 ≤ (if k == key then suc (count w) else count w))
      → ((n : OsString) (w : W) → count (name_fetch n w).1 ≡ count w)
      → (ls : List (Lookup K)) (w : W) → count w ≡ 0
      → count_after ls w ≤ 1
  key_once key adds keeps ls w h =
      look_up_all-le (NoKey key adds keeps) (look_up-After key adds keeps) ls empty w
        (omega arith, λ _. h)

  -- The same for a name.
  pub name_once :
      (name : OsString)
      → ((n : OsString) (w : W)
          → count (name_fetch n w).1 ≤ (if n == name then suc (count w) else count w))
      → ((k : K) (w : W) → count (key_fetch k w).1 ≡ count w)
      → (ls : List (Lookup K)) (w : W) → count w ≡ 0
      → count_after ls w ≤ 1
  name_once name adds keeps ls w h =
      look_up_all-le (NoName name adds keeps) (look_up_name-After name adds keeps) ls empty w
        (omega arith, λ _. h)
