-- ===== src/Tests/Iterators.antt =====
-- Two iterators over the users of the small system.
use rust_users.Prelude.{◌≡◌, refl, none, some, List, [], ◌∷◌, arith}
use rust_users.Std.Exec.{ret}
use rust_users.Libc.Enumeration.{OnePosition}
use rust_users.Base.AllUsers.Shared
use rust_users.Base.AllUsers.Shared.{create, item, run, iterators_share}
use rust_users.Tests.System.{toy, toy_enumeration, as_root}
use rust_users.Tests.Readable.{root, fred, root_passwd-IsPasswdOf, fred_passwd-IsPasswdOf}

abbrev toy_position : OnePosition toy toy_enumeration
toy_position = record {
  setpwent_keeps = λ w. refl;
  getpwent_keeps = λ w. refl;
  endpwent_keeps = λ w. refl;
  getpwent_stays = λ w e. ground arith;
  endpwent_rewinds = λ w. refl;
}

-- The first iterator reads root, a second one is made and reads root again, and the rest is split.
abbrev two_iterators : List Shared.Call
two_iterators = create ∷ item 1 ∷ create ∷ item 2 ∷ item 1 ∷ item 2 ∷ Shared.drop 2 ∷ item 1 ∷ []

iterators_share_example :
    (run toy two_iterators as_root).0
    ≡ ret ((1, some root) ∷ (2, some root) ∷ (1, some fred) ∷ (2, none) ∷ (1, some root) ∷ [])
unfolding Shared.shared
iterators_share_example =
    iterators_share toy toy_enumeration toy_position (root ∷ fred ∷ []) two_iterators [] as_root
      (root_passwd-IsPasswdOf, (fred_passwd-IsPasswdOf, tt)) tt
