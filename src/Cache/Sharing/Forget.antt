-- ===== src/Cache/Sharing/Forget.antt =====
-- The lookups with `Arc`s against those without.
use mathlib.Core.Option
use rust_users.Prelude.{
  ℕ, ◌≡◌, refl, Option, Option-cases, none, some, inl, inr, [], ◌∷◌, arith, Eq, bytes_eq,
}
use rust_users.Std.Exec.{Exec, Outcome, ret, stop, diverges, bind}
use rust_users.Std.Ffi.{OsString}
use rust_users.Std.HashMap.{HashMap, get, insert}
use rust_users.Std.Arc.{Arc}
use rust_users.Cache.BiMap.{BiMap, by_key, by_name}
use rust_users.Cache.Sharing.{Shared, by_key_shared, by_name_shared}

-- The values, without their addresses.
abbrev pub value_of : {V : Type 0} → Option (Arc V) → Option V
value_of a = Option.map (λ (b : Arc _). b.value) a

unfoldable pub values : {K V : Type 0} → HashMap K (Option (Arc V)) → HashMap K (Option V)
values [] = []
values ((k, a) ∷ m) = (k, value_of a) ∷ values m

abbrev pub forget : {K V : Type 0} → BiMap K (Arc V) → BiMap K V
forget m = record {
  forward = record { borrowed = m.forward.borrowed; value = values m.forward.value };
  backward = m.backward;
}

module _ {K V : Type 0} ⦃e : Eq K⦄ where
  pub get-values :
      (key : K) (m : HashMap K (Option (Arc V)))
      → get key (values m) ≡ Option.map value_of (get key m)
  unfolding get values
  get-values key [] = refl
  get-values key ((k, a) ∷ m) = ground (arith, get-values key m)

  insert-values :
      (key : K) (a : Option (Arc V)) (m : HashMap K (Option (Arc V)))
      → values (insert key a m) ≡ insert key (value_of a) (values m)
  unfolding insert values
  insert-values key a [] = refl
  insert-values key a ((k, b) ∷ m) = ground (arith, insert-values key a m)

  module _ {W : Type 0} where
    -- What is left of a lookup when the addresses are taken away.
    abbrev pub forget_result :
        Outcome (Option (Arc V)) × Shared K V W → Outcome (Option V) × (BiMap K V × W)
    forget_result (r, (m, (next, w))) = (bind r (λ a. ret (value_of a)), (forget m, w))

    module _ (m : BiMap K (Arc V)) (next : ℕ) (w : W) where
      module _ (name_of : V → OsString) (fetch : K → Exec W (Option V)) (key : K) where
        by_key_read :
            (q : Outcome (Option V))
            → (fetch key w).0 ≡ q
            → forget_result (by_key_shared name_of fetch key (m, (next, w)))
              ≡ by_key name_of fetch key (forget m, w)
        unfolding by_key_shared by_key
        by_key_read (ret none) p =
            let f = m.forward.value in ground (arith, get-values key f, insert-values key none f)
        by_key_read (ret (some v)) p =
            let f = m.forward.value in
            let a : Arc V = record { address = next; value = v } in
            ground (arith, get-values key f, insert-values key (some a) f)
        by_key_read (stop fault) p = ground (arith, get-values key m.forward.value)
        by_key_read diverges p = ground (arith, get-values key m.forward.value)

        pub by_key-forget :
            forget_result (by_key_shared name_of fetch key (m, (next, w)))
            ≡ by_key name_of fetch key (forget m, w)
        by_key-forget = by_key_read (fetch key w).0 refl

      module _ (key_of : V → K) (fetch : OsString → Exec W (Option V)) (name : OsString) where
        abbrev Forgets : Type 0
        Forgets =
            forget_result (by_name_shared key_of fetch name (m, (next, w)))
            ≡ by_name key_of fetch name (forget m, w)

        by_name_cached : (r : Option K) → get name m.backward.value ≡ some r → Forgets
        unfolding by_name_shared by_name
        by_name_cached none p = ground arith
        by_name_cached (some key) p = ground (arith, get-values key m.forward.value)

        by_name_read :
            (q : Outcome (Option V))
            → get name m.backward.value ≡ none
            → (fetch name w).0 ≡ q
            → Forgets
        unfolding by_name_shared by_name
        by_name_read (ret none) new p = ground arith
        by_name_read (ret (some v)) new p =
            let a : Arc V = record { address = next; value = v } in
            ground (arith, insert-values (key_of v) (some a) m.forward.value)
        by_name_read (stop fault) new p = ground arith
        by_name_read diverges new p = ground arith

        pub by_name-forget : Forgets
        by_name-forget = elim (Option-cases (get name m.backward.value)) [
          | inl new ↦ by_name_read (fetch name w).0 new refl
          | inr (r, p) ↦ by_name_cached r p
        ]
