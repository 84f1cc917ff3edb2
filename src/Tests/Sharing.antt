-- ===== src/Tests/Sharing.antt =====
-- The identity of cached users, on the small system.
use mathlib.Core.List.{append_cancel_right}
use rust_users.Prelude.{
  ℕ, ◌≡◌, ◌⊎◌, inl, inr, refl, false, Option, none, some, List, [], ◌∷◌, ◌++◌, map, codes, arith,
  nat_eq, bytes_eq, ◌==◌, if◌then◌else◌, ◌||◌,
}
use rust_users.Std.Exec.{Exec, ret, pure}
use rust_users.Std.Ffi.{OsString}
use rust_users.Std.HashMap.{get}
use rust_users.Std.Arc.{Arc, ptr_eq}
use rust_users.Base.Types.{User}
use rust_users.Base.Lookup
use rust_users.Cache.BiMap.{BiMap, empty}
use rust_users.Cache.BiMap.Calls
use rust_users.Cache.BiMap.Closed.{IsClosed}
use rust_users.Cache.Answers.{users}
use rust_users.Cache.Sharing.{by_key_shared, by_name_shared}
use rust_users.Cache.Sharing.Forget.{value_of}
use rust_users.Cache.Sharing.Identity.{look_up_all, answer, AllAgree, one_arc}
use rust_users.Cache.Sharing.Alias.{alias_replaces}
use rust_users.Tests.System.{Machine, toy, as_root}
use rust_users.Tests.Readable.{root, fred, toy_directory}
use rust_users.Tests.Unique.{toy_unique}

abbrev name_of : User → OsString
name_of u = u.name_arc

abbrev uid_of : User → ℕ
uid_of u = u.uid

read_names :
    (name : OsString) (v : User)
    → (toy_directory as_root).user_by_name name ≡ some v
    → ((name ++ 0 ∷ [] ≡ codes "root" ++ 0 ∷ []) × (v ≡ root))
      ⊎ ((name ++ 0 ∷ [] ≡ codes "fred" ++ 0 ∷ []) × (v ≡ fred))
read_names name v e = ground arith

own_names :
    (name : OsString) (v : User)
    → (toy_directory as_root).user_by_name name ≡ some v
    → v.name_arc ≡ name
own_names name v e = elim (read_names name v e) [
  | inl (p, q) ↦ cc (append_cancel_right name (codes "root") (0 ∷ []) p)
  | inr (p, q) ↦ cc (append_cancel_right name (codes "fred") (0 ∷ []) p)
]

abbrev lookups : List (Calls.Lookup ℕ)
lookups =
    Calls.at_key 1337
    ∷ Calls.at_name (codes "root")
    ∷ Calls.at_name (codes "fred")
    ∷ Calls.at_key 7
    ∷ Calls.at_key 1337
    ∷ []

one_arc_example :
    (found : List (Option (Arc User))) × ((look_up_all name_of uid_of
        (Lookup.get_user_by_uid toy)
        (Lookup.get_user_by_name toy)
        lookups
        (empty, (0, as_root))).0
      ≡ ret found)
    × (map value_of found
        ≡ map (answer (users toy as_root (toy_directory as_root) (toy_unique as_root))) lookups)
    × AllAgree uid_of found
one_arc_example =
    one_arc (users toy as_root (toy_directory as_root) (toy_unique as_root)) as_root
      (Lookup.get_user_by_uid toy) (Lookup.get_user_by_name toy) (toy_directory as_root).reads_uid
      (toy_directory as_root).reads_name own_names lookups

-- A directory that finds fred as freddy too.
abbrev key_fetch : ℕ → Exec Machine (Option User)
key_fetch uid = pure (if uid == 1337 then some fred else none)

abbrev name_fetch : OsString → Exec Machine (Option User)
name_fetch name = pure (if name == codes "fred" || name == codes "freddy" then some fred else none)

abbrev fred_arc : Arc User
fred_arc = record { address = 0; value = fred }

abbrev fred_cached : BiMap ℕ (Arc User)
fred_cached = record {
  forward = record { borrowed = false; value = (1337, some fred_arc) ∷ [] };
  backward = record { borrowed = false; value = (codes "fred", some 1337) ∷ [] };
}

fred_cached-IsClosed : IsClosed fred_cached
unfolding get
fred_cached-IsClosed = record {
  forward_free = refl;
  backward_free = refl;
  indexed = λ name key p. ground arith;
}

alias_replaces_example :
    let s = (by_name_shared uid_of name_fetch (codes "freddy") (fred_cached, (1, as_root))).1 in
    (b : Arc User) × ((by_key_shared name_of key_fetch 1337 (fred_cached, (1, as_root))).0
      ≡ ret (some fred_arc))
    × (by_key_shared name_of key_fetch 1337 s ≡ (ret (some b), s))
    × (b.value ≡ fred)
    × (ptr_eq fred_arc b ≡ false)
unfolding get
alias_replaces_example =
    alias_replaces name_of uid_of key_fetch name_fetch fred_cached 1 as_root as_root 1337 fred_arc
      (codes "freddy") fred fred_cached-IsClosed (ground arith) (omega arith) (ground arith)
      (ground arith) refl
