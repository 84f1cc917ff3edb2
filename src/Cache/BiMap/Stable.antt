-- ===== src/Cache/BiMap/Stable.antt =====
-- cache.rs: how long an answer by key stays, while the system changes.
use rust_users.Prelude.{
  ◌≡◌, refl, Option, none, some, List, [], ◌∷◌, arith, Eq, bytes_eq, Option-cases, inl, inr,
}
use rust_users.Std.Exec.{Exec, Outcome, ret, stop, diverges, continue, pure}
use rust_users.Std.Ffi.{OsString}
use rust_users.Std.HashMap.{get, get-insert}
use rust_users.Cache.BiMap.{BiMap, by_key, by_name}
use rust_users.Cache.BiMap.Calls.{Lookup, at_key, at_name, look_up, look_up_all}
use rust_users.Cache.BiMap.Closed.{IsClosed, by_key_safe, by_name_safe}
use rust_users.Cache.BiMap.Steps.{by_key_hit}

module _ {K V W : Type 0} ⦃e : Eq K⦄ (name_of : V → OsString) (key_of : V → K)
    (key_fetch : K → Exec W (Option V)) (name_fetch : OsString → Exec W (Option V)) (key : K) where
  -- What a lookup in this state finds for the key and stores: a lookup by a name that is not cached
  -- asks the system, as it is then, and may be given a value with the key.
  abbrev given : Outcome (Option V) → Option V
  given (ret (some v)) = elim (e.dec (key_of v) key) [ yes own ↦ some v | no other ↦ none ]
  given _ = none

  pub found : Lookup K → BiMap K V × W → Option V
  found (at_key k) s = none
  found (at_name name) (m, w) = elim (get name m.backward.value) [
    | some cached ↦ none
    | none ↦ given (name_fetch name w).0
  ]

  abbrev or_before : Option V → Option V → Option V
  or_before none r = r
  or_before (some v) r = some v

  -- The answer by the key after a run of lookups, from the answer `r` before it: the last of the values
  -- that are found for the key on the way. A lookup that fails ends the run.
  pub answer_after : List (Lookup K) → BiMap K V × W → Option V → Option V
  answer_after [] s r = r
  answer_after (l ∷ ls) s r =
      let now = or_before (found l s) r in
      let (end, s') = look_up name_of key_of key_fetch name_fetch l s in
      let later = answer_after ls s' now in
      elim end [ ret a ↦ later | stop f ↦ now | diverges ↦ now ]

  pub by_key_keeps_entry :
      (k : K) (m : BiMap K V) (w : W) (r : Option V)
      → get key m.forward.value ≡ some r
      → get key (by_key name_of key_fetch k (m, w)).1.0.forward.value ≡ some r
  unfolding by_key
  by_key_keeps_entry k m w r h = fetched (key_fetch k w).0 refl
    where
      fetched :
          (q : Outcome (Option V))
          → (key_fetch k w).0 ≡ q
          → get key (by_key name_of key_fetch k (m, w)).1.0.forward.value ≡ some r
      fetched (ret none) p = ground (arith, get-insert key k none m.forward.value)
      fetched (ret (some v)) p = ground (arith, get-insert key k (some v) m.forward.value)
      fetched (stop f) p = ground arith
      fetched diverges p = ground arith

  pub by_name_keeps_entry :
      (name n : OsString) (m : BiMap K V) (w : W) (r : Option K)
      → get name m.backward.value ≡ some r
      → get name (by_name key_of name_fetch n (m, w)).1.0.backward.value ≡ some r
  unfolding by_name
  by_name_keeps_entry name n m w r h = fetched (name_fetch n w).0 refl
    where
      fetched :
          (q : Outcome (Option V))
          → (name_fetch n w).0 ≡ q
          → get name (by_name key_of name_fetch n (m, w)).1.0.backward.value ≡ some r
      fetched (ret none) p = ground (arith, get-insert name n none m.backward.value)
      fetched (ret (some v)) p =
          ground (arith, get-insert name n (some (key_of v)) m.backward.value)
      fetched (stop f) p = ground arith
      fetched diverges p = ground arith

  by_name_entry :
      (n : OsString) (m : BiMap K V) (w : W) (r : Option V)
      → IsClosed m
      → get key m.forward.value ≡ some r
      → get key (by_name key_of name_fetch n (m, w)).1.0.forward.value
        ≡ some (or_before (found (at_name n) (m, w)) r)
  unfolding by_name found
  by_name_entry n m w r h p = fetched (name_fetch n w).0 refl
    where
      fetched :
          (q : Outcome (Option V))
          → (name_fetch n w).0 ≡ q
          → get key (by_name key_of name_fetch n (m, w)).1.0.forward.value
            ≡ some (or_before (found (at_name n) (m, w)) r)
      fetched (ret none) q = ground arith
      fetched (ret (some v)) q =
          let after = get-insert key (key_of v) (some v) m.forward.value in
          elim (Option-cases (get n m.backward.value)) [
            | inr (cached, c) ↦ ground arith
            | inl new ↦ elim (e.dec (key_of v) key) [
              | no other ↦ ground (arith, after, h.forward_free, h.backward_free)
              | yes own ↦ ground (arith, after, h.forward_free, h.backward_free)
            ]
          ]
      fetched (stop f) q = ground arith
      fetched diverges q = ground arith

  -- The invariant holds, and the answer by the key is cached and is `r`.
  record Answers (r : Option V) (m : BiMap K V) : Type 0 where
    closed : IsClosed m
    holds : get key m.forward.value ≡ some r

  look_up-Answers :
      (l : Lookup K) (s : BiMap K V × W) (r : Option V)
      → Answers r s.0
      → Answers (or_before (found l s) r) (look_up name_of key_of key_fetch name_fetch l s).1.0
  unfolding look_up found
  look_up-Answers (at_key k) (m, w) r a = record {
    closed = (by_key_safe name_of key_fetch k m w a.closed).0;
    holds = by_key_keeps_entry k m w r a.holds;
  }
  look_up-Answers (at_name n) (m, w) r a = record {
    closed = (by_name_safe key_of name_fetch n m w a.closed).0;
    holds = by_name_entry n m w r a.closed a.holds;
  }

  abbrev all : List (Lookup K) → Exec (BiMap K V × W) (List (Option V))
  all = look_up_all name_of key_of key_fetch name_fetch

  rest_state :
      (a : Option V) (q : Outcome (List (Option V))) (s : BiMap K V × W)
      → (continue q s (λ xs. pure (a ∷ xs))).1 ≡ s
  rest_state a (ret xs) s = refl
  rest_state a (stop f) s = refl
  rest_state a diverges s = refl

  look_up_all-Answers :
      (ls : List (Lookup K)) (s : BiMap K V × W) (r : Option V)
      → Answers r s.0
      → Answers (answer_after ls s r) (all ls s).1.0
  unfolding look_up_all answer_after
  look_up_all-Answers [] s r h = h
  look_up_all-Answers (l ∷ ls) s r h =
      ended (look_up name_of key_of key_fetch name_fetch l s).0 (look_up_all-Answers ls) refl
    where
      ended :
          (q : Outcome (Option V))
          → ((t : BiMap K V × W) (x : Option V)
              → Answers x t.0
              → Answers (answer_after ls t x) (all ls t).1.0)
          → (look_up name_of key_of key_fetch name_fetch l s).0 ≡ q
          → Answers (answer_after (l ∷ ls) s r) (all (l ∷ ls) s).1.0
      ended (ret a) ih p =
          let s' = (look_up name_of key_of key_fetch name_fetch l s).1 in
          let now = or_before (found l s) r in
          let same_answer : answer_after (l ∷ ls) s r ≡ answer_after ls s' now =
            ground (arith, p) in
          let same_state : (all (l ∷ ls) s).1 ≡ (all ls s').1 =
            rw (p, rest_state a (all ls s').0 (all ls s').1) refl in
          rw (same_answer, same_state) (ih s' now (look_up-Answers l s r h))
      ended (stop f) ih p =
          let same_answer : answer_after (l ∷ ls) s r ≡ or_before (found l s) r =
            ground (arith, p) in
          rw (same_answer, p) (look_up-Answers l s r h)
      ended diverges ih p =
          let same_answer : answer_after (l ∷ ls) s r ≡ or_before (found l s) r =
            ground (arith, p) in
          rw (same_answer, p) (look_up-Answers l s r h)

  -- An answer by key that is cached stays the answer, whatever lookups follow and whatever the system
  -- does, failures included, until a lookup by a name that is not cached then is given, by the system
  -- as it is then, a value with that key. From there on that value is the answer, until the next such
  -- lookup. No later lookup by the key goes to the system.
  pub answers_stay :
      (ls : List (Lookup K)) (m : BiMap K V) (w : W) (r : Option V)
      → IsClosed m
      → get key m.forward.value ≡ some r
      → let s = (look_up_all name_of key_of key_fetch name_fetch ls (m, w)).1 in
        by_key name_of key_fetch key s ≡ (ret (answer_after ls (m, w) r), s)
  answers_stay ls m w r h cached =
      let a = look_up_all-Answers ls (m, w) r (record { closed = h; holds = cached }) in
      let s = (look_up_all name_of key_of key_fetch name_fetch ls (m, w)).1 in
      by_key_hit s.0 s.1 a.closed name_of key_fetch key a.holds
