-- ===== src/Base/Logging/Silent.antt =====
-- The functions with logging against those without.
use rust_users.Prelude.{ℕ, ◌≡◌, refl, Option, none, some, List, [], ◌∷◌, arith}
use rust_users.Std.Exec.{Exec, Outcome, ret, stop, diverges, continue, pure, lift, os, ◌>>=◌, ◌>>◌}
use rust_users.Std.Ffi.{OsString, cstring_new}
use rust_users.Libc.{Libc, Passwd, CGroup, Reply, ResultPtr}
use rust_users.Base.Raw
use rust_users.Base.Lookup
use rust_users.Base.Lookup.{retry, fuel, initial_size, finish}
use rust_users.Base.Process
use rust_users.Base.GroupLists
use rust_users.Base.GroupLists.{buffer, buffer_size, keep, dedup, dedup_by_key}
use rust_users.Base.AllUsers
use rust_users.Base.Logging
use rust_users.Base.Logging.{
  Message, Logged, trace, passwd_to_user, struct_to_group, convert, fetch, collect,
}

-- What is left of a result when the log is taken away.
abbrev pub erase : {W A : Type 0} → Outcome A × Logged W → Outcome A × W
erase (r, (log, w)) = (r, w)

module _ {W : Type 0} where
  -- The first computation is the second with lines that are logged.
  abbrev pub IsSilent : {A : Type 0} → Exec (Logged W) A → Exec W A → Type 0
  IsSilent logged plain = (log : List Message) (w : W) → erase (logged (log, w)) ≡ plain w

  module _ {A : Type 0} where
    os-IsSilent : (m : Exec W A) → IsSilent (os m) m
    os-IsSilent m log w = refl

    pure-IsSilent : (a : A) → IsSilent (pure a) (pure a)
    pure-IsSilent a log w = refl

    trace-IsSilent :
        (line : Message) (m : Exec (Logged W) A) (p : Exec W A)
        → IsSilent m p
        → IsSilent (trace line >> m) p
    trace-IsSilent line m p h log w = h (line ∷ log) w

    module _ {B : Type 0} where
      continue-IsSilent :
          (r : Outcome A) (log : List Message) (w : W) (k : A → Exec (Logged W) B)
          (q : A → Exec W B)
          → ((a : A) → IsSilent (k a) (q a))
          → erase (continue r (log, w) k) ≡ continue r w q
      continue-IsSilent (ret a) log w k q h = h a log w
      continue-IsSilent (stop f) log w k q h = refl
      continue-IsSilent diverges log w k q h = refl

      pub bind-IsSilent :
          (m : Exec (Logged W) A) (p : Exec W A) (k : A → Exec (Logged W) B) (q : A → Exec W B)
          → IsSilent m p
          → ((a : A) → IsSilent (k a) (q a))
          → IsSilent (m >>= k) (p >>= q)
      bind-IsSilent m p k q h g log w =
          let (r, (log', w')) = m (log, w) in rw (← h log w) (continue-IsSilent r log' w' k q g)

  passwd_to_user-IsSilent : (p : Passwd) → IsSilent (passwd_to_user p) (lift (Raw.passwd_to_user p))
  unfolding passwd_to_user
  passwd_to_user-IsSilent p log w = refl

  struct_to_group-IsSilent :
      (g : CGroup) → IsSilent (struct_to_group g) (lift (Raw.struct_to_group g))
  unfolding struct_to_group
  struct_to_group-IsSilent g log w = refl

  module _ {C A : Type 0} (to : C → Exec (Logged W) A) (plain : C → Outcome A)
      (h : (c : C) → IsSilent (to c) (lift (plain c))) where
    convert-IsSilent : (reply : Option (Reply C)) → IsSilent (convert to reply) (finish plain reply)
    unfolding convert Lookup.convert
    convert-IsSilent none log w = refl
    convert-IsSilent (some reply) log w = found reply.result refl
      where
        found :
            (result : ResultPtr)
            → reply.result ≡ result
            → erase (convert to (some reply) (log, w)) ≡ finish plain (some reply) w
        found ResultPtr.null e = rw e refl
        found ResultPtr.other e = rw e refl
        found ResultPtr.input e = rw e (
            bind-IsSilent (to reply.struct) (lift (plain reply.struct)) (λ a. pure (some a))
              (λ a. pure (some a)) (h reply.struct) (λ a log w. refl) log w)

    fetch-IsSilent :
        (line : Message) (query : ℕ → W → Reply C × W)
        → IsSilent (fetch line query to) (Lookup.fetch query plain)
    unfolding fetch Lookup.fetch
    fetch-IsSilent line query log w =
        bind-IsSilent (os (retry query fuel initial_size)) (retry query fuel initial_size)
          (convert to) (finish plain) (os-IsSilent (retry query fuel initial_size)) convert-IsSilent
          (line ∷ log) w

module _ (L : Libc) where
  pub get_user_by_uid-IsSilent :
      (uid : ℕ) → IsSilent (Logging.get_user_by_uid L uid) (Lookup.get_user_by_uid L uid)
  unfolding Logging.get_user_by_uid Lookup.get_user_by_uid
  get_user_by_uid-IsSilent uid =
      fetch-IsSilent passwd_to_user Raw.passwd_to_user passwd_to_user-IsSilent
        (Message.running_getpwuid_r uid) (L.getpwuid_r uid)

  pub get_group_by_gid-IsSilent :
      (gid : ℕ) → IsSilent (Logging.get_group_by_gid L gid) (Lookup.get_group_by_gid L gid)
  unfolding Logging.get_group_by_gid Lookup.get_group_by_gid
  get_group_by_gid-IsSilent gid =
      fetch-IsSilent struct_to_group Raw.struct_to_group struct_to_group-IsSilent
        (Message.running_getgrgid_r gid) (L.getgrgid_r gid)

  pub get_user_by_name-IsSilent :
      (name : OsString)
      → IsSilent (Logging.get_user_by_name L name) (Lookup.get_user_by_name L name)
  unfolding Logging.get_user_by_name Lookup.get_user_by_name
  get_user_by_name-IsSilent name = named (cstring_new name) refl
    where
      named :
          (c : Option (List ℕ))
          → cstring_new name ≡ c
          → IsSilent (Logging.get_user_by_name L name) (Lookup.get_user_by_name L name)
      named none e log w = ground arith
      named (some c) e log w = ground (
        arith,
        fetch-IsSilent passwd_to_user Raw.passwd_to_user passwd_to_user-IsSilent
            (Message.running_getpwnam_r name) (L.getpwnam_r c) log w,
      )

  pub get_group_by_name-IsSilent :
      (name : OsString)
      → IsSilent (Logging.get_group_by_name L name) (Lookup.get_group_by_name L name)
  unfolding Logging.get_group_by_name Lookup.get_group_by_name
  get_group_by_name-IsSilent name = named (cstring_new name) refl
    where
      named :
          (c : Option (List ℕ))
          → cstring_new name ≡ c
          → IsSilent (Logging.get_group_by_name L name) (Lookup.get_group_by_name L name)
      named none e log w = ground arith
      named (some c) e log w = ground (
        arith,
        fetch-IsSilent struct_to_group Raw.struct_to_group struct_to_group-IsSilent
            (Message.running_getgrnam_r name) (L.getgrnam_r c) log w,
      )

  collect-IsSilent :
      (gids : List ℕ) (log : List Message) (w : L.World)
      → erase (collect (Logging.get_group_by_gid L) gids (log, w))
        ≡ GroupLists.collect_groups L gids w
  unfolding collect GroupLists.collect_groups
  collect-IsSilent [] log w = refl
  collect-IsSilent (gid ∷ gids) log w =
      bind-IsSilent (Logging.get_group_by_gid L gid) (Lookup.get_group_by_gid L gid)
        (λ group.
          (collect (Logging.get_group_by_gid L) gids >>= λ groups. pure (keep group groups)))
        (λ group. (GroupLists.collect_groups L gids >>= λ groups. pure (keep group groups)))
        (get_group_by_gid-IsSilent gid)
        (λ group.
          bind-IsSilent (collect (Logging.get_group_by_gid L) gids)
            (GroupLists.collect_groups L gids) (λ groups. pure (keep group groups))
            (λ groups. pure (keep group groups)) (collect-IsSilent gids)
            (λ groups. pure-IsSilent (keep group groups)))
        log w

  pub get_current_username-IsSilent :
      IsSilent (Logging.get_current_username L) (Process.get_current_username L)
  unfolding Logging.get_current_username Process.get_current_username Logging.get_current_uid
      Process.get_current_uid
  get_current_username-IsSilent log w =
      ground (arith, get_user_by_uid-IsSilent (L.getuid w) (Message.running_getuid ∷ log) w)

  pub get_effective_username-IsSilent :
      IsSilent (Logging.get_effective_username L) (Process.get_effective_username L)
  unfolding Logging.get_effective_username Process.get_effective_username Logging.get_effective_uid
      Process.get_effective_uid
  get_effective_username-IsSilent log w =
      ground (arith, get_user_by_uid-IsSilent (L.geteuid w) (Message.running_geteuid ∷ log) w)

  pub get_current_groupname-IsSilent :
      IsSilent (Logging.get_current_groupname L) (Process.get_current_groupname L)
  unfolding Logging.get_current_groupname Process.get_current_groupname Logging.get_current_gid
      Process.get_current_gid
  get_current_groupname-IsSilent log w =
      ground (arith, get_group_by_gid-IsSilent (L.getgid w) (Message.running_getgid ∷ log) w)

  pub get_effective_groupname-IsSilent :
      IsSilent (Logging.get_effective_groupname L) (Process.get_effective_groupname L)
  unfolding Logging.get_effective_groupname Process.get_effective_groupname
      Logging.get_effective_gid Process.get_effective_gid
  get_effective_groupname-IsSilent log w =
      ground (arith, get_group_by_gid-IsSilent (L.getegid w) (Message.running_getegid ∷ log) w)

  pub group_access_list-IsSilent :
      IsSilent (Logging.group_access_list L) (GroupLists.group_access_list L)
  unfolding Logging.group_access_list GroupLists.group_access_list
  group_access_list-IsSilent log w =
      let (_, buff, w') = L.getgroups buffer_size buffer w in
      ground (arith, collect-IsSilent buff (Message.running_getgroups ∷ log) w')

  pub get_user_groups-IsSilent :
      (name : OsString) (gid : ℕ)
      → IsSilent (Logging.get_user_groups L name gid) (GroupLists.get_user_groups L name gid)
  unfolding Logging.get_user_groups GroupLists.get_user_groups
  get_user_groups-IsSilent name gid log w = named (cstring_new name) refl
    where
      named :
          (c : Option (List ℕ))
          → cstring_new name ≡ c
          → erase (Logging.get_user_groups L name gid (log, w))
            ≡ GroupLists.get_user_groups L name gid w
      named none e = ground arith
      named (some c) e =
          let (_, buff, w') = L.getgrouplist c gid buffer buffer_size w in
          let line = Message.running_getgrouplist name gid in
          ground (arith, collect-IsSilent (dedup buff) (line ∷ log) w')

  pub next-IsSilent : IsSilent (Logging.next L) (AllUsers.next L)
  unfolding Logging.next AllUsers.next passwd_to_user
  next-IsSilent log w = ground arith
