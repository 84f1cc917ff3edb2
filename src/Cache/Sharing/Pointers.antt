-- ===== src/Cache/Sharing/Pointers.antt =====
-- What a map with `Arc`s holds, over a directory that holds still.
use mathlib.Core.Option
use rust_users.Prelude.{
  ℕ, suc, ◌<◌, ◌≡◌, false, ap, sym, ◌∙◌, Option, none, some, arith, Eq, bytes_eq, nat_eq,
}
use rust_users.Std.Exec.{Outcome, ret}
use rust_users.Std.Ffi.{OsString}
use rust_users.Std.HashMap.{get, insert, get-insert}
use rust_users.Std.Arc.{Arc}
use rust_users.Cache.BiMap.{BiMap}
use rust_users.Cache.BiMap.Closed.{IsClosed}
use rust_users.Cache.BiMap.Coherent.{Source, IsCoherent}
use rust_users.Cache.Sharing.{Shared}
use rust_users.Cache.Sharing.Forget.{value_of, forget, forget_result, get-values}

module _ {K V : Type 0} ⦃e : Eq K⦄ where
  -- A map with a new value under its key and its name.
  abbrev pub add : BiMap K (Arc V) → K → OsString → Arc V → BiMap K (Arc V)
  add m key name a = record {
    forward = record { borrowed = false; value = insert key (some a) m.forward.value };
    backward = record { borrowed = false; value = insert name (some key) m.backward.value };
  }

  abbrev pub absent : BiMap K (Arc V) → K → BiMap K (Arc V)
  absent m key = record m {
    forward = record { borrowed = false; value = insert key none m.forward.value };
  }

  abbrev pub nameless : BiMap K (Arc V) → OsString → BiMap K (Arc V)
  nameless m name = record m {
    backward = record { borrowed = false; value = insert name none m.backward.value };
  }

  -- Each `Arc` in the map is found by the name of its value too, has been allocated, and has an
  -- address of its own.
  pub record IsLinked (name_of : V → OsString) (next : ℕ) (m : BiMap K (Arc V)) : Type 0 where
    pub linked :
        (key : K) (a : Arc V)
        → get key m.forward.value ≡ some (some a)
        → get (name_of a.value) m.backward.value ≡ some (some key)
    pub below : (key : K) (a : Arc V) → get key m.forward.value ≡ some (some a) → a.address < next
    pub distinct :
        (j k : K) (a b : Arc V)
        → get j m.forward.value ≡ some (some a)
        → get k m.forward.value ≡ some (some b)
        → a.address ≡ b.address
        → j ≡ k

  -- No `Arc` of the first map is replaced in the second.
  abbrev pub Kept : BiMap K (Arc V) → BiMap K (Arc V) → Type 0
  Kept m n =
      (key : K) (a : Arc V)
      → get key m.forward.value ≡ some (some a)
      → get key n.forward.value ≡ some (some a)

  module _ {name_of : V → OsString} {key_of : V → K} (D : Source K V name_of key_of) where
    pub record Holds (next : ℕ) (m : BiMap K (Arc V)) : Type 0 where
      pub true_values : IsCoherent D (forget m)
      pub arcs : IsLinked name_of next m

    module _ {next : ℕ} {m : BiMap K (Arc V)} (h : Holds next m) where
      -- What stands under a key is the user of the directory.
      pub value_true :
          (key : K) (a : Arc V)
          → get key m.forward.value ≡ some (some a)
          → D.at_key key ≡ some a.value
      value_true key a p = sym (
          h.true_values.key_true key (some a.value)
            (get-values key m.forward.value ∙ ap (Option.map value_of) p))

      pub own_place :
          (key : K) (a : Arc V)
          → get key m.forward.value ≡ some (some a)
          → get (key_of a.value) m.forward.value ≡ some (some a)
      own_place key a p = rw (D.own_key key a.value (value_true key a p)) p

      -- One name leads to one key.
      names_differ :
          (j k : K) (a : Arc V) (v : V)
          → get j m.forward.value ≡ some (some a)
          → D.at_key k ≡ some v
          → name_of a.value ≡ name_of v
          → j ≡ k
      names_differ j k a v p q r =
          let u = value_true j a p in
          cc (D.own_name j a.value u, D.own_name k v q, D.own_key j a.value u, D.own_key k v q)

      pub add-IsLinked :
          (key : K) (v : V)
          → D.at_key key ≡ some v
          → get key m.forward.value ≡ none
          → IsLinked name_of
              (suc next)
              (add m key (name_of v) (record { address = next; value = v }))
      add-IsLinked key v q new =
          let arc : Arc V = record { address = next; value = v } in
          let f = m.forward.value in
          record {
            linked = λ j a p. ground (
              arith,
              get-insert j key (some arc) f,
              get-insert (name_of a.value) (name_of v) (some key) m.backward.value,
              h.arcs.linked j a,
              names_differ j key a v,
            );
            below = λ j a p. ground (arith, get-insert j key (some arc) f, h.arcs.below j a);
            distinct = λ j k a b p p' same. ground (
              arith,
              get-insert j key (some arc) f,
              get-insert k key (some arc) f,
              h.arcs.below j a,
              h.arcs.below k b,
              h.arcs.distinct j k a b,
            );
          }

      -- A key that is cached as missing.
      pub absent-IsLinked :
          (key : K) → get key m.forward.value ≡ none → IsLinked name_of next (absent m key)
      absent-IsLinked key new =
          let f = m.forward.value in
          record {
            linked = λ j a p. ground (arith, get-insert j key none f, h.arcs.linked j a);
            below = λ j a p. ground (arith, get-insert j key none f, h.arcs.below j a);
            distinct = λ j k a b p p' same.
                ground (
                  arith,
                  get-insert j key none f,
                  get-insert k key none f,
                  h.arcs.distinct j k a b,
                );
          }

      pub nameless-IsLinked :
          (name : OsString)
          → get name m.backward.value ≡ none
          → IsLinked name_of next (nameless m name)
      nameless-IsLinked name new = record {
        linked = λ j a p.
            ground
              (arith, get-insert (name_of a.value) name none m.backward.value, h.arcs.linked j a p);
        below = h.arcs.below;
        distinct = h.arcs.distinct;
      }

      pub IsClosed_lem : IsClosed m
      IsClosed_lem =
          let c = h.true_values.closed in
          record {
            forward_free = c.forward_free;
            backward_free = c.backward_free;
            indexed =
                λ name key p. ground (arith, c.indexed name key, get-values key m.forward.value);
          }

    -- A lookup that returns the answer `o` as an `Arc` that the map then holds, and replaces none.
    abbrev pub Gives :
        {W : Type 0}
        → W
        → ℕ
        → BiMap K (Arc V)
        → Option V
        → Outcome (Option (Arc V)) × Shared K V W
        → Type 0
    Gives w next m o result =
        (a : Option (Arc V)) × (m' : BiMap K (Arc V)) × (next' : ℕ) × (result
          ≡ (ret a, (m', (next', w))))
        × (value_of a ≡ o)
        × Holds next' m'
        × Kept m m'
        × ((b : Arc V) → a ≡ some b → get (key_of b.value) m'.forward.value ≡ some (some b))

    module _ {W : Type 0} (w : W) {next : ℕ} {m : BiMap K (Arc V)} (h : Holds next m) where
      -- What is left to show of a lookup that answers as the directory when its addresses are
      -- taken away.
      pub gives :
          {o : Option V} {result : Outcome (Option (Arc V)) × Shared K V W}
          {plain : Outcome (Option V) × (BiMap K V × W)} (a : Option (Arc V)) (m' : BiMap K (Arc V))
          (next' : ℕ)
          → result ≡ (ret a, (m', (next', w)))
          → forget_result result ≡ plain
          → plain.0 ≡ ret o
          → IsCoherent D plain.1.0
          → IsLinked name_of next' m'
          → Kept m m'
          → ((b : Arc V) → a ≡ some b → get (key_of b.value) m'.forward.value ≡ some (some b))
          → Gives w next m o result
      gives a m' next' p q answer coherent linked kept found =
          let t = sym q ∙ ap forget_result p in
          let u = ap (λ x. x.0) t in
          (
            a,
            m',
            next',
            p,
            cc,
            record { true_values = rw t at coherent; arcs = linked },
            kept,
            found,
          )
