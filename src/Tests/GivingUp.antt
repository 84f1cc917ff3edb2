-- ===== src/Tests/GivingUp.antt =====
-- switch.rs on the small system, when root gives its privileges up.
use rust_users.Prelude.{◌≡◌, refl, [], ◌∷◌, arith, nat_eq}
use rust_users.Std.Exec.{ret, ok}
use rust_users.Libc.Identity.{Identity, all_of}
use rust_users.Switch.{set_current_uid}
use rust_users.Switch.GiveUp.{
  current_uid, effective_uid, both_uid, user_group, end_of, attempt_all, root_gives_up,
}
use rust_users.Tests.System.{toy, toy_posix, as_root}

abbrev toy_identity : Identity toy toy_posix
toy_identity = record {
  setuid_allowed = λ id w v h. ground arith;
  setuid_refused = λ id w h. ground arith;
  setgid_allowed = λ id w v h. ground arith;
  setgid_keeps_users = λ id w. ground arith;
  setreuid_allowed = λ real effective w h. ground arith;
  setreuid_refused = λ real effective w h. ground arith;
  setregid_allowed = λ real effective w h. ground arith;
  setregid_keeps_users = λ real effective w. ground arith;
}

root_gives_up_example :
    let (r, w') = set_current_uid toy 1337 as_root in
    (r ≡ ret (ok tt))
    × (toy_posix.uids (
          attempt_all toy
            (current_uid 0
              ∷ effective_uid 0
              ∷ both_uid 0 0
              ∷ user_group 0 0
              ∷ end_of (record { uid = 0; gid = 0 })
              ∷ [])
            w')
        ≡ all_of 1337)
root_gives_up_example =
    root_gives_up toy toy_posix toy_identity 1337 (omega arith) (omega arith)
      (current_uid 0
        ∷ effective_uid 0
        ∷ both_uid 0 0
        ∷ user_group 0 0
        ∷ end_of (record { uid = 0; gid = 0 })
        ∷ [])
      as_root refl
