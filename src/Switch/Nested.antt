-- ===== src/Switch/Nested.antt =====
-- Switches inside one another, each with a guard that is dropped at the end of its scope.
use rust_users.Prelude.{ℕ, ◌≡◌, true, List, [], ◌∷◌, arith}
use rust_users.Std.Exec.{Exec, ret, IoResult, ok, err, pure, gets, ◌>>=◌, ◌>>◌}
use rust_users.Libc.{Libc}
use rust_users.Libc.Posix.{Posix, Ids, may}
use rust_users.Switch.{drop_guard, switch_user_group}
use rust_users.Switch.Guard.{guard_at, HasIds, switch_user_group_switches, drop_guard_ends}

-- `let guard = switch_user_group(…)?;` in each scope, for a list of users and groups. What comes
-- back is the effective IDs in the innermost scope.
pub nest : (L : Libc) → List (ℕ × ℕ) → Exec L.World (IoResult (ℕ × ℕ))
nest L [] = gets λ w. ok (L.geteuid w, L.getegid w)
nest L ((uid, gid) ∷ targets) = do
  switched ← switch_user_group L uid gid
  elim switched [
    | err e ↦ pure (err e)
    | ok guard ↦ do inner ← nest L targets; drop_guard L guard; pure inner
  ]

abbrev with_effective : ℕ → Ids → Ids
with_effective id ids = record ids { effective = id }

-- With these IDs, each switch is permitted, and so is the way back.
abbrev CanNest : Ids → Ids → List (ℕ × ℕ) → Type 0
CanNest users groups [] = Unit
CanNest users groups ((uid, gid) ∷ targets) =
    let users' = with_effective uid users in
    let groups' = with_effective gid groups in
    (may gid groups users ≡ true)
    × (may uid users users ≡ true)
    × (may groups.effective groups' users' ≡ true)
    × (may users.effective users' users' ≡ true)
    × CanNest users' groups' targets

-- The IDs of the innermost scope.
abbrev innermost : ℕ × ℕ → List (ℕ × ℕ) → ℕ × ℕ
innermost ids [] = ids
innermost ids (target ∷ targets) = innermost target targets

module _ (L : Libc) (P : Posix L) where
  -- If each switch and each way back is permitted, the innermost scope runs with the last user and
  -- group of the list as the effective ones, and when all guards are dropped every ID is as before.
  pub nested_guards_restore :
      (targets : List (ℕ × ℕ)) (w : L.World)
      → CanNest (P.uids w) (P.gids w) targets
      → let (r, w') = nest L targets w in
        (r ≡ ret (ok (innermost ((P.uids w).effective, (P.gids w).effective) targets)))
        × HasIds P (P.uids w) (P.gids w) w'
  unfolding nest
  nested_guards_restore [] w h = ground (arith, P.geteuid_lem w, P.getegid_lem w)
  nested_guards_restore ((uid, gid) ∷ targets) w (g, u, g', u', rest) =
      let w1 = (switch_user_group L uid gid w).1 in
      let (switched, (users, groups)) = switch_user_group_switches L P uid gid w g u in
      let (inner, (users', groups')) = nested_guards_restore targets w1 (rw (users, groups) rest) in
      let w2 = (nest L targets w1).1 in
      let (dropped, (users'', groups'')) =
        drop_guard_ends L P (guard_at P w) w2 (rw (users', groups', users, groups) g')
          (rw (users', users) u') in
      ground (arith, switched, users, groups, inner, users', groups', dropped, users'', groups'')
