-- ===== src/Switch/GiveUp.antt =====
-- switch.rs: what a process can do after root has given its privileges up.
use rust_users.Prelude.{
  ℕ, zero, suc, ◌<◌, ◌≡◌, ◌≢◌, ap, ◌∙◌, true, Bool-cases, inl, inr, List, [], ◌∷◌, arith, ◌==◌,
  nat_eq,
}
use rust_users.Prelude.Int.{ℤ, pos, negsuc}
use rust_users.Std.Exec.{
  Exec, Fault, ret, IoResult, ok, err, call, failed_to_set_effective_gid,
  failed_to_set_effective_uid, ◌>>=◌, ◌>>◌,
}
use rust_users.Std.Keeps.{Keeps, bind-Keeps, guarding-Keeps}
use rust_users.Libc.{Libc}
use rust_users.Libc.Posix.{Posix, may, no_id}
use rust_users.Libc.Identity.{Identity, all_of, may_set_both, ids_set_both}
use rust_users.Base.Process.{get_effective_uid, get_effective_gid}
use rust_users.Switch.{
  SwitchUserGuard, check, expect, set_current_uid, set_current_gid, set_effective_uid,
  set_effective_gid, set_both_uid, set_both_gid, drop_guard, switch_to, switch_user_group,
}

-- A call of a function of the module, or the end of a guard.
pub data Attempt : Type 0 where
  current_uid current_gid effective_uid effective_gid : (id : ℕ) → Attempt
  both_uid both_gid : (real effective : ℕ) → Attempt
  user_group : (uid gid : ℕ) → Attempt
  end_of : SwitchUserGuard → Attempt

-- The world after a call, whether it returned or panicked.
abbrev attempt : (L : Libc) → Attempt → L.World → L.World
attempt L (current_uid id) w = (set_current_uid L id w).1
attempt L (current_gid id) w = (set_current_gid L id w).1
attempt L (effective_uid id) w = (set_effective_uid L id w).1
attempt L (effective_gid id) w = (set_effective_gid L id w).1
attempt L (both_uid real effective) w = (set_both_uid L real effective w).1
attempt L (both_gid real effective) w = (set_both_gid L real effective w).1
attempt L (user_group uid gid) w = (switch_user_group L uid gid w).1
attempt L (end_of guard) w = (drop_guard L guard w).1

pub attempt_all : (L : Libc) → List Attempt → L.World → L.World
attempt_all L [] w = w
attempt_all L (a ∷ attempts) w = attempt_all L attempts (attempt L a w)

module _ (L : Libc) (P : Posix L) (I : Identity L P) (uid : ℕ) (plain : uid ≢ 0)
    (valid : uid < no_id) where
  abbrev Own : L.World → Type 0
  Own w = P.uids w ≡ all_of uid

  abbrev KeepsOwn : {A : Type 0} → Exec L.World A → Type 0
  KeepsOwn m = Keeps Own m

  check-Keeps : (r : ℤ) → KeepsOwn (check L r)
  unfolding check
  check-Keeps (pos zero) w e = e
  check-Keeps (negsuc zero) w e = e
  check-Keeps (pos (suc n)) w e = e
  check-Keeps (negsuc (suc n)) w e = e

  setuid-Keeps : (id : ℕ) (w : L.World) → Own w → Own (L.setuid id w).1
  setuid-Keeps id w e = elim (Bool-cases (id == uid)) [
    | inl granted ↦ ground (arith, e, I.setuid_allowed id w)
    | inr refused ↦ ground (arith, e, I.setuid_refused id w)
  ]

  seteuid-Keeps : (id : ℕ) (w : L.World) → Own w → Own (L.seteuid id w).1
  seteuid-Keeps id w e = elim (Bool-cases (id == uid)) [
    | inl granted ↦ ground (arith, e, P.seteuid_allowed id w)
    | inr refused ↦ ground (arith, e, P.seteuid_refused id w)
  ]

  setegid-Keeps : (id : ℕ) (w : L.World) → Own w → Own (L.setegid id w).1
  setegid-Keeps id w e = elim (Bool-cases (may id (P.gids w) (P.uids w))) [
    | inl granted ↦ ground (arith, e, P.setegid_allowed id w)
    | inr refused ↦ ground (arith, e, P.setegid_refused id w)
  ]

  stays :
      (real effective : ℕ)
      → may_set_both real effective (all_of uid) (all_of uid) ≡ true
      → ids_set_both real effective (all_of uid) ≡ all_of uid
  stays real effective h = ground arith

  setreuid-Keeps : (real effective : ℕ) (w : L.World) → Own w → Own (L.setreuid real effective w).1
  setreuid-Keeps real effective w e =
      elim (Bool-cases (may_set_both real effective (P.uids w) (P.uids w))) [
        | inl granted ↦
            let (_, users, _) = I.setreuid_allowed real effective w granted in
            users ∙ ap (ids_set_both real effective) e ∙ stays real effective (ground (arith, e))
        | inr refused ↦ ground (arith, e, I.setreuid_refused real effective w)
      ]

  module _ (f : L.World → ℤ × L.World) (keeps : (w : L.World) → Own w → Own (f w).1) where
    call-Keeps : KeepsOwn (call f)
    call-Keeps = keeps

    checked-Keeps : KeepsOwn (call f >>= check L)
    checked-Keeps = bind-Keeps Own (call f) (check L) call-Keeps check-Keeps

  expect-Keeps : (message : Fault) (r : IoResult Unit) → KeepsOwn (expect L message r)
  expect-Keeps message (ok a) w e = e
  expect-Keeps message (err n) w e = e

  set_effective_uid-Keeps : (id : ℕ) → KeepsOwn (set_effective_uid L id)
  unfolding set_effective_uid
  set_effective_uid-Keeps id = checked-Keeps (L.seteuid id) (seteuid-Keeps id)

  set_effective_gid-Keeps : (id : ℕ) → KeepsOwn (set_effective_gid L id)
  unfolding set_effective_gid
  set_effective_gid-Keeps id = checked-Keeps (L.setegid id) (setegid-Keeps id)

  drop_guard-Keeps : (guard : SwitchUserGuard) → KeepsOwn (drop_guard L guard)
  unfolding drop_guard
  drop_guard-Keeps guard =
      let set_user = set_effective_uid L guard.uid >>= expect L failed_to_set_effective_uid in
      bind-Keeps Own (set_effective_gid L guard.gid)
        (λ group. expect L failed_to_set_effective_gid group >> set_user)
        (set_effective_gid-Keeps guard.gid)
        λ group.
          bind-Keeps Own (expect L failed_to_set_effective_gid group) (λ x. set_user)
            (expect-Keeps failed_to_set_effective_gid group)
            λ x.
              bind-Keeps Own (set_effective_uid L guard.uid) (expect L failed_to_set_effective_uid)
                (set_effective_uid-Keeps guard.uid) (expect-Keeps failed_to_set_effective_uid)

  switch_to-Keeps : (id gid : ℕ) (state : SwitchUserGuard) → KeepsOwn (switch_to L id gid state)
  unfolding switch_to
  switch_to-Keeps id gid state w e =
      let w1 = (L.setegid gid w).1 in
      let e1 : Own w1 = setegid-Keeps gid w e in
      let e2 = seteuid-Keeps id w1 e1 in
      elim (Bool-cases (may gid (P.gids w) (P.uids w))) [
        | inl granted ↦ elim (Bool-cases (may id (P.uids w1) (P.uids w1))) [
          | inl granted2 ↦
              ground (arith, e2, P.setegid_allowed gid w granted, P.seteuid_allowed id w1 granted2)
          | inr refused2 ↦
              ground (arith, e2, P.setegid_allowed gid w granted, P.seteuid_refused id w1 refused2)
        ]
        | inr refused ↦ ground (arith, e1, P.setegid_refused gid w refused)
      ]

  switch_user_group-Keeps : (id gid : ℕ) → KeepsOwn (switch_user_group L id gid)
  unfolding switch_user_group get_effective_gid get_effective_uid
  switch_user_group-Keeps id gid w =
      let state : SwitchUserGuard = record { uid = L.geteuid w; gid = L.getegid w } in
      guarding-Keeps Own (switch_to L id gid state) (drop_guard L state)
        (switch_to-Keeps id gid state) (drop_guard-Keeps state) w

  attempt-Keeps : (a : Attempt) (w : L.World) → Own w → Own (attempt L a w)
  unfolding set_current_uid set_current_gid set_both_uid set_both_gid
  attempt-Keeps (current_uid id) = checked-Keeps (L.setuid id) (setuid-Keeps id)
  attempt-Keeps (current_gid id) =
      checked-Keeps (L.setgid id) (λ w e. I.setgid_keeps_users id w ∙ e)
  attempt-Keeps (effective_uid id) = set_effective_uid-Keeps id
  attempt-Keeps (effective_gid id) = set_effective_gid-Keeps id
  attempt-Keeps (both_uid real effective) =
      checked-Keeps (L.setreuid real effective) (setreuid-Keeps real effective)
  attempt-Keeps (both_gid real effective) =
      checked-Keeps (L.setregid real effective) (λ w e. I.setregid_keeps_users real effective w ∙ e)
  attempt-Keeps (user_group id gid) = switch_user_group-Keeps id gid
  attempt-Keeps (end_of guard) = drop_guard-Keeps guard

  attempt_all-Keeps :
      (attempts : List Attempt) (w : L.World) → Own w → Own (attempt_all L attempts w)
  unfolding attempt_all
  attempt_all-Keeps [] w e = e
  attempt_all-Keeps (a ∷ attempts) w e =
      attempt_all-Keeps attempts (attempt L a w) (attempt-Keeps a w e)

  -- When a process whose effective user is root sets its current user to another one, by
  -- `set_current_uid` with an ID that is neither 0 nor 2 ^ 32 - 1, the call returns `Ok`. From then
  -- on, whatever functions of the module are called and whatever guards end, panics included, the
  -- real, the effective and the saved user are that user.
  pub root_gives_up :
      (attempts : List Attempt) (w : L.World)
      → (P.uids w).effective ≡ 0
      → let (r, w') = set_current_uid L uid w in
        (r ≡ ret (ok tt)) × (P.uids (attempt_all L attempts w') ≡ all_of uid)
  unfolding set_current_uid check
  root_gives_up attempts w root =
      let (answer, users, _) = I.setuid_allowed uid w valid (ground arith) in
      let own : P.uids (L.setuid uid w).1 ≡ all_of uid = ground arith in
      ground (arith, answer, attempt_all-Keeps attempts (L.setuid uid w).1 own)
