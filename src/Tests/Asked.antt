-- ===== src/Tests/Asked.antt =====
-- How often the system is asked, and a C library that fails, on the small system.
use rust_users.Prelude.{ℕ, ◌≤◌, ◌≡◌, refl, none, List, [], ◌∷◌, codes, arith, nat_eq, bytes_eq}
use rust_users.Std.Exec.{ret}
use rust_users.Std.Ffi.{OsString, has_nul}
use rust_users.Std.HashMap.{get}
use rust_users.Libc.{Libc, ResultPtr, Query, Passwd}
use rust_users.Base.Logging.Asked.{seen, asks_uid, asks_username, asks_gid, asks_groupname}
use rust_users.Cache.{new, get_user_by_uid, get_user_by_name}
use rust_users.Cache.BiMap.{empty}
use rust_users.Cache.BiMap.Calls.{Lookup}
use rust_users.Cache.BiMap.Calls
use rust_users.Cache.BiMap.Closed.{empty-IsClosed}
use rust_users.Cache.Logged.{look_up_users, look_up_groups, asked_once}
use rust_users.Cache.Failures.{after_uids, after_names, failures_are_kept}
use rust_users.Tests.System.{Machine, toy, root_passwd, as_fred}

-- Repeated lookups, by the name and by the ID of one user, and of an ID that nobody has.
abbrev lookups : List (Lookup ℕ)
lookups =
    Calls.at_name (codes "fred")
    ∷ Calls.at_key 1337
    ∷ Calls.at_key 5
    ∷ Calls.at_key 5
    ∷ Calls.at_name (codes "fred")
    ∷ []

asked_once_example :
    let (_, (_, users)) = look_up_users toy lookups (empty, ([], as_fred)) in
    let (_, (_, groups)) = look_up_groups toy lookups (empty, ([], as_fred)) in
    (seen (asks_uid 5) users ≤ 1)
    × (seen (asks_username (codes "fred")) users ≤ 1)
    × (seen (asks_gid 5) groups ≤ 1)
    × (seen (asks_groupname (codes "fred")) groups ≤ 1)
asked_once_example = asked_once toy lookups as_fred 5 (codes "fred")

-- Too many files are open: each call for a user comes back with `EMFILE`.
abbrev emfile : {K : Type 0} → Query Machine K Passwd
emfile key len w = (record { code = 24; result = ResultPtr.null; struct = root_passwd }, w)

abbrev failing : Libc
failing = record toy { getpwuid_r = emfile; getpwnam_r = emfile }

failures_are_kept_example :
    (let (r, (c', _)) = get_user_by_uid failing 1337 (new, as_fred) in
      (r ≡ ret none)
      × ((calls : List (ℕ × Machine)) (v : Machine)
          → let d = after_uids failing calls c' in
            get_user_by_uid failing 1337 (d, v) ≡ (ret none, (d, v))))
    × (let (r, (c', _)) = get_user_by_name failing (codes "fred") (new, as_fred) in
        (r ≡ ret none)
        × ((calls : List (OsString × Machine)) (v : Machine)
            → let d = after_names failing calls c' in
              get_user_by_name failing (codes "fred") (d, v) ≡ (ret none, (d, v))))
unfolding has_nul nat_eq get
failures_are_kept_example =
    failures_are_kept failing new as_fred empty-IsClosed 1337 (codes "fred") refl refl refl
      (record { not_erange = omega arith; null = refl })
      (record { not_erange = omega arith; null = refl })
