-- ===== src/Cache/Sharing/Lookups.antt =====
-- The lookups of `Arc`s, one by one and in a row, over a directory that holds still.
use mathlib.Core.Option
use rust_users.Prelude.{
  ℕ, suc, ◌≡◌, refl, ap, ◌∙◌, Option, Option-cases, none, some, inl, inr, arith, Eq, bytes_eq,
  nat_eq,
}
use rust_users.Std.Exec.{Exec, Outcome, ret}
use rust_users.Std.Ffi.{OsString}
use rust_users.Std.HashMap.{get, get-insert}
use rust_users.Std.Arc.{Arc}
use rust_users.Cache.BiMap.{BiMap, by_key, by_name}
use rust_users.Cache.BiMap.Closed.{cached_name}
use rust_users.Cache.BiMap.Coherent.{Source, by_key-IsCoherent, by_name-IsCoherent}
use rust_users.Cache.BiMap.Steps.{by_key_hit, by_name_hit}
use rust_users.Std.Arc.{new_found}
use rust_users.Cache.Sharing.{Shared, by_key_shared, by_name_shared}
use rust_users.Cache.Sharing.Forget.{value_of, forget, get-values, by_key-forget, by_name-forget}
use rust_users.Cache.Sharing.Pointers.{
  Holds, Gives, add, absent, nameless, nameless-IsLinked, own_place, add-IsLinked, absent-IsLinked,
  IsClosed_lem, gives, value_true,
}

module _ {K V : Type 0} ⦃e : Eq K⦄ {name_of : V → OsString} {key_of : V → K}
    (D : Source K V name_of key_of) where
  module _ {W : Type 0} (w : W) {next : ℕ} {m : BiMap K (Arc V)} (h : Holds D next m) where
    module _ (fetch : K → Exec W (Option V)) (key : K)
        (reads : fetch key w ≡ (ret (D.at_key key), w)) where
      abbrev key_result : Outcome (Option (Arc V)) × Shared K V W
      key_result = by_key_shared name_of fetch key (m, (next, w))

      key_cached :
          (a : Option (Arc V))
          → get key m.forward.value ≡ some a
          → Gives D w next m (D.at_key key) key_result
      unfolding by_key_shared
      key_cached a p =
          let (answer, _, coherent) =
            by_key-IsCoherent D w fetch (forget m) h.true_values key reads in
          gives D w h a m next
            (by_key_hit m (next, w) (IsClosed_lem D h) (λ (b : Arc V). name_of b.value)
              (λ k. new_found (fetch k)) key p)
            (by_key-forget m next w name_of fetch key) answer coherent h.arcs (λ k b q. q)
            (λ b q. own_place D h key b (p ∙ ap some q))

      key_absent :
          get key m.forward.value ≡ none
          → D.at_key key ≡ none
          → Gives D w next m (D.at_key key) key_result
      unfolding by_key_shared by_key
      key_absent new p =
          let (answer, _, coherent) =
            by_key-IsCoherent D w fetch (forget m) h.true_values key reads in
          let c = IsClosed_lem D h in
          gives D w h none (absent m key) next
            (ground (arith, c.forward_free, c.backward_free, reads))
            (by_key-forget m next w name_of fetch key) answer coherent (absent-IsLinked D h key new)
            (λ k b q. ground (arith, get-insert k key none m.forward.value)) (λ b q. absurd (cc))

      key_added :
          (v : V)
          → get key m.forward.value ≡ none
          → D.at_key key ≡ some v
          → Gives D w next m (D.at_key key) key_result
      unfolding by_key_shared by_key
      key_added v new p =
          let (answer, _, coherent) =
            by_key-IsCoherent D w fetch (forget m) h.true_values key reads in
          let c = IsClosed_lem D h in
          let a : Arc V = record { address = next; value = v } in
          gives D w h (some a) (add m key (name_of v) a) (suc next)
            (ground (arith, c.forward_free, c.backward_free, reads))
            (by_key-forget m next w name_of fetch key) answer coherent
            (add-IsLinked D h key v p new)
            (λ k b q. ground (arith, get-insert k key (some a) m.forward.value))
            (λ b q.
              ground (arith, get-insert (key_of v) key (some a) m.forward.value, D.own_key key v p))

      -- A lookup by key.
      pub by_key-Gives : Gives D w next m (D.at_key key) key_result
      by_key-Gives = elim (Option-cases (get key m.forward.value)) [
        | inr (a, p) ↦ key_cached a p
        | inl new ↦ elim (Option-cases (D.at_key key)) [
          | inl p ↦ key_absent new p
          | inr (v, p) ↦ key_added v new p
        ]
      ]

    found_at :
        (name : OsString) (b : Arc V)
        → cached_name name m ≡ some (some b)
        → (key : K) × (get key m.forward.value ≡ some (some b))
    found_at name b p = entry (get name m.backward.value) refl
      where
        entry :
            (r : Option (Option K))
            → get name m.backward.value ≡ r
            → (key : K) × (get key m.forward.value ≡ some (some b))
        entry none q = absurd (ground arith)
        entry (some none) q = absurd (ground arith)
        entry (some (some key)) q = (key, ground arith)

    name_is_new : (name : OsString) → cached_name name m ≡ none → get name m.backward.value ≡ none
    name_is_new name p = elim (Option-cases (get name m.backward.value)) [
      | inl q ↦ q
      | inr (none, q) ↦ absurd (ground arith)
      | inr (some key, q) ↦ absurd ((IsClosed_lem D h).indexed name key q (ground arith))
    ]

    -- A value that is fetched by a name that is not cached is not cached either.
    key_is_new :
        {name : OsString} (v : V)
        → name_of v ≡ name
        → get name m.backward.value ≡ none
        → D.at_name name ≡ some v
        → get (key_of v) m.forward.value ≡ none
    key_is_new {name} v exact new p = elim (Option-cases (get (key_of v) m.forward.value)) [
      | inl q ↦ q
      | inr (none, q) ↦
          let t =
            h.true_values.key_true (key_of v) none
              (get-values (key_of v) m.forward.value ∙ ap (Option.map value_of) q) in
          absurd (cc (D.same name v p))
      | inr (some a, q) ↦
          let t = value_true D h (key_of v) a q in
          let l = h.arcs.linked (key_of v) a q in absurd (cc (D.same name v p))
    ]

    module _ (fetch : OsString → Exec W (Option V)) (name : OsString)
        (reads : fetch name w ≡ (ret (D.at_name name), w)) where
      abbrev name_result : Outcome (Option (Arc V)) × Shared K V W
      name_result = by_name_shared key_of fetch name (m, (next, w))

      name_cached :
          (a : Option (Arc V))
          → cached_name name m ≡ some a
          → Gives D w next m (D.at_name name) name_result
      unfolding by_name_shared
      name_cached a p =
          let (answer, _, coherent) =
            by_name-IsCoherent D w fetch (forget m) h.true_values name reads in
          gives D w h a m next
            (by_name_hit m (next, w) (IsClosed_lem D h) (λ (b : Arc V). key_of b.value)
              (λ k. new_found (fetch k)) name p)
            (by_name-forget m next w key_of fetch name) answer coherent h.arcs (λ k b q. q)
            (λ b q. let (key, r) = found_at name b (p ∙ ap some q) in own_place D h key b r)

      name_absent :
          get name m.backward.value ≡ none
          → D.at_name name ≡ none
          → Gives D w next m (D.at_name name) name_result
      unfolding by_name_shared by_name
      name_absent new p =
          let (answer, _, coherent) =
            by_name-IsCoherent D w fetch (forget m) h.true_values name reads in
          let c = IsClosed_lem D h in
          gives D w h none (nameless m name) next
            (ground (arith, c.forward_free, c.backward_free, reads))
            (by_name-forget m next w key_of fetch name) answer coherent
            (nameless-IsLinked D h name new) (λ k b q. q) (λ b q. absurd (cc))

      name_added :
          (v : V)
          → name_of v ≡ name
          → get name m.backward.value ≡ none
          → D.at_name name ≡ some v
          → Gives D w next m (D.at_name name) name_result
      unfolding by_name_shared by_name
      name_added v exact new p =
          let (answer, _, coherent) =
            by_name-IsCoherent D w fetch (forget m) h.true_values name reads in
          let c = IsClosed_lem D h in
          let key = key_of v in
          let a : Arc V = record { address = next; value = v } in
          let new' = key_is_new v exact new p in
          gives D w h (some a) (add m key (name_of v) a) (suc next)
            (ground (arith, c.forward_free, c.backward_free, reads))
            (by_name-forget m next w key_of fetch name) answer coherent
            (add-IsLinked D h key v (D.same name v p) new')
            (λ k b q. ground (arith, get-insert k key (some a) m.forward.value))
            (λ b q. ground (arith, get-insert (key_of v) key (some a) m.forward.value))

      -- A lookup by name, in a directory that finds a value by no other name than its own.
      pub by_name-Gives :
          ((v : V) → D.at_name name ≡ some v → name_of v ≡ name)
          → Gives D w next m (D.at_name name) name_result
      by_name-Gives exact = elim (Option-cases (cached_name name m)) [
        | inr (a, p) ↦ name_cached a p
        | inl p ↦
            let new = name_is_new name p in
            elim (Option-cases (D.at_name name)) [
              | inl q ↦ name_absent new q
              | inr (v, q) ↦ name_added v (exact v q) new q
            ]
      ]
