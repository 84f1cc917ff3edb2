-- ===== src/Cache/Logged.antt =====
-- cache.rs: the lookups with the feature `logging`, whose lines show when the system is asked.
use rust_users.Prelude.{ℕ, ◌≤◌, refl, Option, List, [], arith, nat_eq, bytes_eq}
use rust_users.Std.Exec.{Exec}
use rust_users.Std.Ffi.{OsString}
use rust_users.Libc.{Libc}
use rust_users.Base.Types.{User, Group}
use rust_users.Base.Logging
use rust_users.Base.Logging.{Logged}
use rust_users.Base.Logging.Asked.{
  count, seen, asks_uid, asks_username, asks_gid, asks_groupname, get_user_by_uid-seen,
  get_user_by_name-seen, get_group_by_gid-seen, get_group_by_name-seen,
}
use rust_users.Cache.BiMap.{BiMap, empty}
use rust_users.Cache.BiMap.Calls.{Lookup, look_up_all}
use rust_users.Cache.BiMap.Once.{key_once, name_once}

module _ (L : Libc) where
  -- `get_user_by_uid` and `get_user_by_name` of a cache, in any order.
  pub look_up_users : List (Lookup ℕ) → Exec (BiMap ℕ User × Logged L.World) (List (Option User))
  look_up_users =
      look_up_all (λ u. u.name_arc) (λ u. u.uid) (Logging.get_user_by_uid L)
        (Logging.get_user_by_name L)

  -- `get_group_by_gid` and `get_group_by_name`.
  pub look_up_groups : List (Lookup ℕ) → Exec (BiMap ℕ Group × Logged L.World) (List (Option Group))
  look_up_groups =
      look_up_all (λ g. g.name_arc) (λ g. g.gid) (Logging.get_group_by_gid L)
        (Logging.get_group_by_name L)

  -- Whatever lookups are made through a new cache, and whatever the system answers, panics included:
  -- by the log, the system is asked at most once for each user ID, each user name, each group ID
  -- and each group name.
  pub asked_once :
      (ls : List (Lookup ℕ)) (w : L.World) (id : ℕ) (name : OsString)
      → let (_, (_, users)) = look_up_users ls (empty, ([], w)) in
        let (_, (_, groups)) = look_up_groups ls (empty, ([], w)) in
        (seen (asks_uid id) users ≤ 1)
        × (seen (asks_username name) users ≤ 1)
        × (seen (asks_gid id) groups ≤ 1)
        × (seen (asks_groupname name) groups ≤ 1)
  unfolding look_up_users look_up_groups count
  asked_once ls w id name = (
    key_once (λ (u : User). u.name_arc) (λ u. u.uid) (Logging.get_user_by_uid L)
        (Logging.get_user_by_name L) (seen (asks_uid id)) id
        (λ k s. ground (arith, get_user_by_uid-seen (asks_uid id) L (λ i. refl) k s))
        (λ n s. ground (arith, get_user_by_name-seen (asks_uid id) L (λ i. refl) n s)) ls ([], w)
        refl,
    name_once (λ (u : User). u.name_arc) (λ u. u.uid) (Logging.get_user_by_uid L)
        (Logging.get_user_by_name L) (seen (asks_username name)) name
        (λ n s. ground (arith, get_user_by_name-seen (asks_username name) L (λ i. refl) n s))
        (λ k s. ground (arith, get_user_by_uid-seen (asks_username name) L (λ i. refl) k s)) ls
        ([], w) refl,
    key_once (λ (g : Group). g.name_arc) (λ g. g.gid) (Logging.get_group_by_gid L)
        (Logging.get_group_by_name L) (seen (asks_gid id)) id
        (λ k s. ground (arith, get_group_by_gid-seen (asks_gid id) L (λ i. refl) k s))
        (λ n s. ground (arith, get_group_by_name-seen (asks_gid id) L (λ i. refl) n s)) ls ([], w)
        refl,
    name_once (λ (g : Group). g.name_arc) (λ g. g.gid) (Logging.get_group_by_gid L)
        (Logging.get_group_by_name L) (seen (asks_groupname name)) name
        (λ n s. ground (arith, get_group_by_name-seen (asks_groupname name) L (λ i. refl) n s))
        (λ k s. ground (arith, get_group_by_gid-seen (asks_groupname name) L (λ i. refl) k s)) ls
        ([], w) refl,
  )
