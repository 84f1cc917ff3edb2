-- ===== src/Base/Logging/Asked.antt =====
-- How many lines of a kind a lookup logs, however it ends.
use rust_users.Prelude.{
  ℕ, suc, ◌≡◌, refl, Bool, false, Option, none, some, List, [], ◌∷◌, ◌++◌, arith, ◌==◌, nat_eq,
  bytes_eq, if◌then◌else◌,
}
use rust_users.Std.Exec.{Exec, Outcome, ret, stop, diverges, continue, pure}
use rust_users.Std.Ffi.{OsString, cstring_new, has_nul}
use rust_users.Libc.{Libc, Passwd, CGroup, Reply, ResultPtr}
use rust_users.Base.Lookup.{retry, fuel, initial_size}
use rust_users.Base.Logging.{
  Message, Logged, passwd_to_user, struct_to_group, convert, fetch, get_user_by_uid,
  get_user_by_name, get_group_by_gid, get_group_by_name,
}

unfoldable pub count : (Message → Bool) → List Message → ℕ
count p [] = 0
count p (line ∷ log) = let rest = count p log in if p line then suc rest else rest

-- The lines that say that the system is asked for this ID, or this name.
abbrev pub asks_uid : ℕ → Message → Bool
asks_uid uid (Message.running_getpwuid_r i) = i == uid
asks_uid uid line = false

abbrev pub asks_username : OsString → Message → Bool
asks_username name (Message.running_getpwnam_r n) = n == name
asks_username name line = false

abbrev pub asks_gid : ℕ → Message → Bool
asks_gid gid (Message.running_getgrgid_r i) = i == gid
asks_gid gid line = false

abbrev pub asks_groupname : OsString → Message → Bool
asks_groupname name (Message.running_getgrnam_r n) = n == name
asks_groupname name line = false

-- The number that is counted in the log of a state.
abbrev pub seen : {W : Type 0} → (Message → Bool) → Logged W → ℕ
seen p s = count p s.0

module _ (p : Message → Bool) {W C A : Type 0} (to : C → Exec (Logged W) A)
    (quiet : (c : C) (s : Logged W) → seen p (to c s).1 ≡ seen p s) where
  wrapped : (r : Outcome A) (s : Logged W) → seen p (continue r s (λ a. pure (some a))).1 ≡ seen p s
  wrapped (ret a) s = refl
  wrapped (stop f) s = refl
  wrapped diverges s = refl

  convert-seen : (reply : Reply C) (s : Logged W) → seen p (convert to (some reply) s).1 ≡ seen p s
  unfolding convert
  convert-seen reply s = found reply.result refl
    where
      found :
          (result : ResultPtr)
          → reply.result ≡ result
          → seen p (convert to (some reply) s).1 ≡ seen p s
      found ResultPtr.null e = rw e refl
      found ResultPtr.other e = rw e refl
      found ResultPtr.input e =
          let (r, t) = to reply.struct s in rw e (ground (arith, wrapped r t, quiet reply.struct s))

  rest-seen :
      (r : Outcome (Option (Reply C))) (s : Logged W)
      → seen p (continue r s (convert to)).1 ≡ seen p s
  unfolding convert
  rest-seen (ret none) s = refl
  rest-seen (ret (some reply)) s = convert-seen reply s
  rest-seen (stop f) s = refl
  rest-seen diverges s = refl

  -- A lookup counts as its first line does.
  fetch-seen :
      (line : Message) (query : ℕ → W → Reply C × W) (log : List Message) (w : W)
      → seen p (fetch line query to (log, w)).1 ≡ count p (line ∷ log)
  unfolding fetch
  fetch-seen line query log w =
      let (r, w') = retry query fuel initial_size w in rest-seen r (line ∷ log, w')

module _ (p : Message → Bool) (L : Libc) where
  module _ (users : (i : ℕ) → p (Message.loading_user i) ≡ false) where
    pub get_user_by_uid-seen :
        (uid : ℕ) (s : Logged L.World)
        → seen p (get_user_by_uid L uid s).1 ≡ count p (Message.running_getpwuid_r uid ∷ s.0)
    unfolding get_user_by_uid passwd_to_user count
    get_user_by_uid-seen uid (log, w) =
        fetch-seen p passwd_to_user (λ c s. ground (arith, users c.pw_uid))
          (Message.running_getpwuid_r uid) (L.getpwuid_r uid) log w

    -- For a name with a zero byte nothing is logged.
    pub get_user_by_name-seen :
        (name : OsString) (s : Logged L.World)
        → seen p (get_user_by_name L name s).1
          ≡ (if has_nul name then count p s.0 else count p (Message.running_getpwnam_r name ∷ s.0))
    unfolding get_user_by_name passwd_to_user count cstring_new
    get_user_by_name-seen name (log, w) = ground (
      arith,
      fetch-seen p passwd_to_user
          (λ (c : Passwd) (s : Logged L.World). ground (arith, users c.pw_uid))
          (Message.running_getpwnam_r name) (L.getpwnam_r (name ++ 0 ∷ [])) log w,
    )

  module _ (groups : (i : ℕ) → p (Message.loading_group i) ≡ false) where
    pub get_group_by_gid-seen :
        (gid : ℕ) (s : Logged L.World)
        → seen p (get_group_by_gid L gid s).1 ≡ count p (Message.running_getgrgid_r gid ∷ s.0)
    unfolding get_group_by_gid struct_to_group count
    get_group_by_gid-seen gid (log, w) =
        fetch-seen p struct_to_group (λ c s. ground (arith, groups c.gr_gid))
          (Message.running_getgrgid_r gid) (L.getgrgid_r gid) log w

    pub get_group_by_name-seen :
        (name : OsString) (s : Logged L.World)
        → seen p (get_group_by_name L name s).1
          ≡ (if has_nul name then count p s.0 else count p (Message.running_getgrnam_r name ∷ s.0))
    unfolding get_group_by_name struct_to_group count cstring_new
    get_group_by_name-seen name (log, w) = ground (
      arith,
      fetch-seen p struct_to_group
          (λ (c : CGroup) (s : Logged L.World). ground (arith, groups c.gr_gid))
          (Message.running_getgrnam_r name) (L.getgrnam_r (name ++ 0 ∷ [])) log w,
    )
