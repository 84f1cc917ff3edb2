-- ===== src/Tests/Switching.antt =====
-- switch.rs on the small system.
use rust_users.Prelude.{ℕ, ◌≡◌, refl, arith, nat_eq}
use rust_users.Std.Exec.{ret, stop, ok, err, failed_to_set_effective_gid}
use rust_users.Libc.Posix.{Ids}
use rust_users.Switch.{drop_guard, switch_user_group}
use rust_users.Switch.Guard.{guard_at, HasIds}
use rust_users.Switch.Refused.{group_refused, user_refused, guard_keeps_switched}
use rust_users.Switch.Nested.{nest, nested_guards_restore}
use rust_users.Prelude.{[], ◌∷◌}
use rust_users.Examples.Switching.{main, shown, as_sample, main_restores}
use rust_users.Tests.System.{Machine, toy, toy_posix, root_ids, fred_ids, as_root, as_fred}

abbrev switched : Ids → Ids
switched ids = record ids { effective = 1337 }

group_refused_example :
    let (r, w') = switch_user_group toy 1337 0 as_fred in
    ((e : ℕ) × (r ≡ ret (err e))) × HasIds toy_posix fred_ids fred_ids w'
unfolding nat_eq
group_refused_example = group_refused toy toy_posix 1337 0 as_fred (ground arith)

user_refused_example :
    let (r, w') = switch_user_group toy 0 1337 as_fred in
    ((e : ℕ) × (r ≡ ret (err e))) × HasIds toy_posix fred_ids fred_ids w'
unfolding nat_eq
user_refused_example =
    user_refused toy toy_posix 0 1337 as_fred (ground arith) (ground arith) (ground arith)

-- A process of root whose effective group is that of fred.
abbrev mixed : Machine
mixed = record as_root { groups = record { real = 0; effective = 1337; saved = 0 } }

guard_keeps_switched_example :
    let (_, w1) = switch_user_group toy 1337 50 mixed in
    let (dropped, w2) = drop_guard toy (guard_at toy_posix mixed) w1 in
    (dropped ≡ stop failed_to_set_effective_gid)
    × HasIds toy_posix
        (record mixed.users { effective = 1337 })
        (record mixed.groups { effective = 50 })
        w2
unfolding nat_eq
guard_keeps_switched_example =
    guard_keeps_switched toy toy_posix 1337 50 mixed refl (omega arith) (omega arith) (omega arith)
      (omega arith) (omega arith) (omega arith)

nested_guards_restore_example :
    let (r, w') = nest toy ((1337, 1337) ∷ (0, 0) ∷ []) as_root in
    (r ≡ ret (ok (0, 0))) × HasIds toy_posix root_ids root_ids w'
unfolding nat_eq
nested_guards_restore_example =
    nested_guards_restore toy toy_posix ((1337, 1337) ∷ (0, 0) ∷ []) as_root
      (refl, refl, refl, refl, (refl, refl, refl, refl, tt))

main_restores_example :
    let own = shown root_ids root_ids in
    let (r, w') = main toy as_root in
    (r ≡ ret (own, shown (as_sample root_ids) (as_sample root_ids), own))
    × HasIds toy_posix root_ids root_ids w'
unfolding nat_eq
main_restores_example =
    main_restores toy toy_posix as_root (ground arith) (ground arith) (ground arith) (ground arith)
