-- ===== src/Cache/BiMap/Coherent.antt =====
-- Lookups in a map over a directory that holds still.
use rust_users.Prelude.{◌≡◌, Option, none, some, arith, Eq, bytes_eq}
use rust_users.Std.Exec.{Exec, ret}
use rust_users.Std.Ffi.{OsString}
use rust_users.Std.HashMap.{get, get-insert}
use rust_users.Cache.BiMap.{BiMap, by_key, by_name}
use rust_users.Cache.BiMap.Closed.{IsClosed, by_key_safe, by_name_safe}

-- The values by their keys and by their names. Keys are unique: a value has one key, and it is
-- found under its own name and its own key, whichever way it was reached.
pub record Source (K V : Type 0) (name_of : V → OsString) (key_of : V → K) : Type 0 where
  pub at_key : K → Option V
  pub at_name : OsString → Option V
  pub own_key : (key : K) (v : V) → at_key key ≡ some v → key_of v ≡ key
  pub own_name : (key : K) (v : V) → at_key key ≡ some v → at_name (name_of v) ≡ some v
  pub same : (name : OsString) (v : V) → at_name name ≡ some v → at_key (key_of v) ≡ some v

module _ {K V : Type 0} ⦃e : Eq K⦄ {name_of : V → OsString} {key_of : V → K}
    (D : Source K V name_of key_of) where
  -- All that is cached is true of the directory.
  pub record IsCoherent (m : BiMap K V) : Type 0 where
    pub closed : IsClosed m
    pub key_true : (key : K) (r : Option V) → get key m.forward.value ≡ some r → r ≡ D.at_key key
    pub absent_true :
        (name : OsString) → get name m.backward.value ≡ some none → D.at_name name ≡ none
    pub name_true :
        (name : OsString) (key : K)
        → get name m.backward.value ≡ some (some key)
        → D.at_key key ≡ D.at_name name

  module _ {W : Type 0} (w : W) where
    module _ (fetch : K → Exec W (Option V)) (m : BiMap K V) (h : IsCoherent m) (key : K)
        (reads : fetch key w ≡ (ret (D.at_key key), w)) where
      by_key_answers :
          ((by_key name_of fetch key (m, w)).0 ≡ ret (D.at_key key))
          × ((by_key name_of fetch key (m, w)).1.1 ≡ w)
      unfolding by_key
      by_key_answers =
          let free = h.closed.forward_free in
          let free' = h.closed.backward_free in grind (arith, h.key_true key)

      by_key_keeps : IsCoherent (by_key name_of fetch key (m, w)).1.0
      unfolding by_key
      by_key_keeps = record {
        closed = (by_key_safe name_of fetch key m w h.closed).0;
        key_true = λ j r. grind (arith, get-insert, h.key_true j);
        absent_true = λ name. grind (arith, get-insert, h.absent_true name);
        name_true = λ name j. grind (arith, get-insert, h.name_true name j, D.own_name key);
      }

      -- A lookup by key in a coherent map answers as the directory does, and keeps it coherent.
      pub by_key-IsCoherent :
          let (r, (m', w')) = by_key name_of fetch key (m, w) in
          (r ≡ ret (D.at_key key)) × (w' ≡ w) × IsCoherent m'
      by_key-IsCoherent = (by_key_answers.0, by_key_answers.1, by_key_keeps)

    module _ (fetch : OsString → Exec W (Option V)) (m : BiMap K V) (h : IsCoherent m)
        (name : OsString) (reads : fetch name w ≡ (ret (D.at_name name), w)) where
      by_name_answers :
          ((by_name key_of fetch name (m, w)).0 ≡ ret (D.at_name name))
          × ((by_name key_of fetch name (m, w)).1.1 ≡ w)
      unfolding by_name
      by_name_answers =
          let free = h.closed.forward_free in
          let free' = h.closed.backward_free in
          grind (arith, h.absent_true name, h.name_true name, h.closed.indexed name, h.key_true)

      by_name_keeps : IsCoherent (by_name key_of fetch name (m, w)).1.0
      unfolding by_name
      by_name_keeps = record {
        closed = (by_name_safe key_of fetch name m w h.closed).0;
        key_true = λ j r. grind (arith, get-insert, h.key_true j, D.same name);
        absent_true = λ other. grind (arith, get-insert, h.absent_true other);
        name_true = λ other j. grind (arith, get-insert, h.name_true other j, D.same name);
      }

      -- The same of a lookup by name.
      pub by_name-IsCoherent :
          let (r, (m', w')) = by_name key_of fetch name (m, w) in
          (r ≡ ret (D.at_name name)) × (w' ≡ w) × IsCoherent m'
      by_name-IsCoherent = (by_name_answers.0, by_name_answers.1, by_name_keeps)
