-- ===== src/Base/Logging.antt =====
-- base.rs with the feature `logging`, which is on by default: what each function passes to `trace!`.

pub mod Silent
pub mod Program
pub mod Messages
pub mod Counts
pub mod Asked
use rust_users.Prelude.{ℕ, true, false, Option, none, some, List, [], ◌∷◌, if◌then◌else◌}
use rust_users.Prelude.Int.{is_negative}
use rust_users.Std.Exec.{
  Exec, IoResult, ok, err, interior_nul, pure, throw, lift, call, gets, modify, os, ◌>>=◌, ◌>>◌,
}
use rust_users.Std.Ffi.{OsString, cstring_new}
use rust_users.Libc.{Libc, Passwd, CGroup, Reply, ResultPtr}
use rust_users.Base.Types.{User, Group}
use rust_users.Base.Raw
use rust_users.Base.Lookup.{retry, fuel, initial_size}
use rust_users.Base.GroupLists.{buffer, buffer_size, keep, dedup, dedup_by_key}

-- The lines that are logged, each with the values that it shows.
pub data Message : Type 0 where
  loading_user loading_group : ℕ → Message
  running_getpwuid_r : ℕ → Message
  running_getpwnam_r : OsString → Message
  -- printed as "Running getgruid_r"
  running_getgrgid_r : ℕ → Message
  running_getgrnam_r : OsString → Message
  running_getuid running_geteuid running_getgid running_getegid running_getgroups : Message
  running_getgrouplist : OsString → ℕ → Message
  running_setpwent running_getpwent running_endpwent : Message

-- The log, the last line first, in front of the world.
abbrev pub Logged : Type 0 → Type 0
Logged W = List Message × W

-- `trace!`
abbrev pub trace : {W : Type 0} → Message → Exec (Logged W) (Unit {0})
trace line = modify λ (log, w). (line ∷ log, w)

module _ {W : Type 0} where
  unfoldable pub passwd_to_user : Passwd → Exec (Logged W) User
  passwd_to_user passwd = do trace (loading_user passwd.pw_uid); lift (Raw.passwd_to_user passwd)

  unfoldable pub struct_to_group : CGroup → Exec (Logged W) Group
  struct_to_group group = do trace (loading_group group.gr_gid); lift (Raw.struct_to_group group)

  -- What follows the loop of a lookup.
  unfoldable pub convert :
      {C A : Type 0} → (C → Exec (Logged W) A) → Option (Reply C) → Exec (Logged W) (Option A)
  convert to none = pure none
  convert to (some reply) = elim reply.result [
    | ResultPtr.null ↦ pure none
    | ResultPtr.other ↦ pure none
    | ResultPtr.input ↦ do a ← to reply.struct; pure (some a)
  ]

  -- A lookup: the line is logged once, before the loop.
  unfoldable pub fetch :
      {C A : Type 0}
      → Message
      → (ℕ → W → Reply C × W)
      → (C → Exec (Logged W) A)
      → Exec (Logged W) (Option A)
  fetch line query to = do trace line; found ← os (retry query fuel initial_size); convert to found

  -- `filter_map` and `collect` over lookups by ID.
  pub collect : (ℕ → Exec (Logged W) (Option Group)) → List ℕ → Exec (Logged W) (List Group)
  collect look_up [] = pure []
  collect look_up (gid ∷ gids) = do
    group ← look_up gid
    groups ← collect look_up gids
    pure (keep group groups)

module _ (L : Libc) where
  unfoldable pub get_user_by_uid : ℕ → Exec (Logged L.World) (Option User)
  get_user_by_uid uid = fetch (running_getpwuid_r uid) (L.getpwuid_r uid) passwd_to_user

  unfoldable pub get_user_by_name : OsString → Exec (Logged L.World) (Option User)
  get_user_by_name username = elim (cstring_new username) [
    | none ↦ pure none
    | some cstring ↦ fetch (running_getpwnam_r username) (L.getpwnam_r cstring) passwd_to_user
  ]

  unfoldable pub get_group_by_gid : ℕ → Exec (Logged L.World) (Option Group)
  get_group_by_gid gid = fetch (running_getgrgid_r gid) (L.getgrgid_r gid) struct_to_group

  unfoldable pub get_group_by_name : OsString → Exec (Logged L.World) (Option Group)
  get_group_by_name groupname = elim (cstring_new groupname) [
    | none ↦ pure none
    | some cstring ↦ fetch (running_getgrnam_r groupname) (L.getgrnam_r cstring) struct_to_group
  ]

  unfoldable pub get_current_uid : Exec (Logged L.World) ℕ
  get_current_uid = do trace running_getuid; os (gets L.getuid)

  unfoldable pub get_effective_uid : Exec (Logged L.World) ℕ
  get_effective_uid = do trace running_geteuid; os (gets L.geteuid)

  unfoldable pub get_current_gid : Exec (Logged L.World) ℕ
  get_current_gid = do trace running_getgid; os (gets L.getgid)

  unfoldable pub get_effective_gid : Exec (Logged L.World) ℕ
  get_effective_gid = do trace running_getegid; os (gets L.getegid)

  -- The names, which log the call for the ID and the lookup.
  abbrev user_name : Exec (Logged L.World) ℕ → Exec (Logged L.World) (Option OsString)
  user_name ask = do
    uid ← ask
    user ← get_user_by_uid uid
    elim user [ none ↦ pure none | some u ↦ pure (some u.name_arc) ]

  abbrev group_name : Exec (Logged L.World) ℕ → Exec (Logged L.World) (Option OsString)
  group_name ask = do
    gid ← ask
    group ← get_group_by_gid gid
    elim group [ none ↦ pure none | some g ↦ pure (some g.name_arc) ]

  unfoldable pub get_current_username : Exec (Logged L.World) (Option OsString)
  get_current_username = user_name get_current_uid

  unfoldable pub get_effective_username : Exec (Logged L.World) (Option OsString)
  get_effective_username = user_name get_effective_uid

  unfoldable pub get_current_groupname : Exec (Logged L.World) (Option OsString)
  get_current_groupname = group_name get_current_gid

  unfoldable pub get_effective_groupname : Exec (Logged L.World) (Option OsString)
  get_effective_groupname = group_name get_effective_gid

  unfoldable pub group_access_list : Exec (Logged L.World) (IoResult (List Group))
  group_access_list = do
    trace running_getgroups
    (res, buff) ←
        os (call λ w. let (res, buff, w') = L.getgroups buffer_size buffer w in ((res, buff), w'))
    if is_negative res
        then (do errno ← os (gets L.errno); pure (err errno))
        else do groups ← collect get_group_by_gid buff; pure (ok (dedup_by_key (λ g. g.gid) groups))

  unfoldable pub get_user_groups : OsString → ℕ → Exec (Logged L.World) (Option (List Group))
  get_user_groups username gid = elim (cstring_new username) [
    | none ↦ throw interior_nul
    | some name ↦ do
      trace (running_getgrouplist username gid)
      (res, buff) ← os (
          call λ w.
            let (res, buff, w') = L.getgrouplist name gid buffer buffer_size w in ((res, buff), w'))
      if is_negative res
          then pure none
          else do groups ← collect get_group_by_gid (dedup buff); pure (some groups)
  ]

  unfoldable pub all_users : Exec (Logged L.World) (Unit {0})
  all_users = do trace running_setpwent; os (modify L.setpwent)

  -- `AllUsers::next`
  unfoldable pub next : Exec (Logged L.World) (Option User)
  next = do
    trace running_getpwent
    result ← os (call L.getpwent)
    elim result [ none ↦ pure none | some p ↦ do user ← passwd_to_user p; pure (some user) ]

  -- `<AllUsers as Drop>::drop`
  unfoldable pub drop_users : Exec (Logged L.World) (Unit {0})
  drop_users = do trace running_endpwent; os (modify L.endpwent)
