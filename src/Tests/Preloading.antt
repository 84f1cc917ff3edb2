-- ===== src/Tests/Preloading.antt =====
-- A preloaded cache, on a system with two users of one ID.
use mathlib.Core.Option
use rust_users.Prelude.{ℕ, ◌≡◌, refl, some, [], ◌∷◌, codes, arith, nat_eq}
use rust_users.Std.Exec.{ret}
use rust_users.Std.Ffi.{OsString, has_nul}
use rust_users.Libc.{Libc}
use rust_users.Libc.Enumeration.{Enumeration}
use rust_users.Base.Types.{User}
use rust_users.Base.Raw.Strings.{IsPasswdOf}
use rust_users.Base.Lookup
use rust_users.Cache.{UsersCache, get_user_by_uid, get_user_by_name, with_all_users}
use rust_users.Cache.BiMap.Closed.{IsClosed}
use rust_users.Cache.Preload.Last.{last_with_uid, last_with_name, or_asked, last_user_answers}
use rust_users.Tests.System.{Machine, toy, root_passwd, toor_passwd, as_root}
use rust_users.Tests.Readable.{user_of, root, root_passwd-IsPasswdOf}

abbrev rewind : Machine → Machine
rewind w = record w { position = root_passwd ∷ toor_passwd ∷ [] }

abbrev with_toor : Libc
with_toor = record toy { setpwent = rewind; endpwent = rewind }

abbrev toor_enumeration : Enumeration with_toor
toor_enumeration = record {
  entries = λ w. root_passwd ∷ toor_passwd ∷ [];
  left = λ w. w.position;
  setpwent_rewinds = λ w. refl;
  getpwent_ends = λ w e. ground arith;
  getpwent_reads = λ w p ps e. ground arith;
}

abbrev toor : User
toor = user_of (codes "toor") 0

toor_passwd-IsPasswdOf : IsPasswdOf toor_passwd toor
unfolding has_nul nat_eq
toor_passwd-IsPasswdOf = record {
  uid = refl;
  primary_group = refl;
  name = (7 ∷ [], refl, refl);
  home_dir = (7 ∷ [], refl, refl);
  shell = (7 ∷ [], refl, refl);
  password = (7 ∷ [], refl, refl);
}

-- The name root leads to the user toor.
root_leads_to_toor :
    Option.map
      (λ (u : User). last_with_uid u.uid (root ∷ toor ∷ []))
      (last_with_name (codes "root") (root ∷ toor ∷ []))
    ≡ some (some toor)
unfolding last_with_uid last_with_name Option.or_else nat_eq
root_leads_to_toor = ground arith

last_user_answers_example :
    (c : UsersCache) × ((with_all_users with_toor 3 as_root).0 ≡ ret c)
    × IsClosed c.users
    × ((uid : ℕ) (v : Machine)
        → let (r, (_, v')) = get_user_by_uid with_toor uid (c, v) in
          (r, v')
          ≡ or_asked
              (Option.map some (last_with_uid uid (root ∷ toor ∷ [])))
              (Lookup.get_user_by_uid with_toor uid)
              v)
    × ((name : OsString) (v : Machine)
        → let (r, (_, v')) = get_user_by_name with_toor name (c, v) in
          (r, v')
          ≡ or_asked
              (Option.map
                (λ (u : User). last_with_uid u.uid (root ∷ toor ∷ []))
                (last_with_name name (root ∷ toor ∷ [])))
              (Lookup.get_user_by_name with_toor name)
              v)
last_user_answers_example =
    last_user_answers with_toor (root ∷ toor ∷ []) toor_enumeration 3 as_root
      (root_passwd-IsPasswdOf, (toor_passwd-IsPasswdOf, tt)) (omega arith)
