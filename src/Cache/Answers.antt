-- ===== src/Cache/Answers.antt =====
-- The specification of `UsersCache`: what calls of its methods should return, over a directory that
-- holds still.
pub mod Methods
pub mod Refines
use mathlib.Core.Option
use rust_users.Prelude.{
  ℕ, ◌≡◌, refl, Option, none, some, List, [], ◌∷◌, map, arith, nat_eq, bytes_eq,
}
use rust_users.Std.Exec.{Exec, ret, pure, ◌>>=◌}
use rust_users.Std.Ffi.{OsString}
use rust_users.Std.HashMap.{get}
use rust_users.Libc.{Libc}
use rust_users.Base.Types.{User, Group}
use rust_users.Base.Lookup
use rust_users.Base.Process
use rust_users.Base.Directory.{Directory}
use rust_users.Cache.{
  UsersCache, new, get_user_by_uid, get_user_by_name, get_current_uid, get_current_username,
  get_effective_uid, get_effective_username, get_group_by_gid, get_group_by_name, get_current_gid,
  get_current_groupname, get_effective_gid, get_effective_groupname,
}
use rust_users.Cache.BiMap
use rust_users.Cache.BiMap.{by_key, by_name}
use rust_users.Cache.BiMap.Closed.{IsClosed, empty-IsClosed}
use rust_users.Cache.BiMap.Coherent.{Source, IsCoherent, by_key-IsCoherent, by_name-IsCoherent}

-- The methods of `Users` and of `Groups`.
pub data Call : Type 0 where
  user_by_uid : ℕ → Call
  user_by_name : OsString → Call
  current_uid current_username effective_uid effective_username : Call
  group_by_gid : ℕ → Call
  group_by_name : OsString → Call
  current_gid current_groupname effective_gid effective_groupname : Call

pub data Answer : Type 0 where
  user : Option User → Answer
  group : Option Group → Answer
  id : ℕ → Answer
  name : Option OsString → Answer

module _ (L : Libc) where
  pub perform : Call → Exec (UsersCache × L.World) Answer
  perform (user_by_uid uid) = do u ← get_user_by_uid L uid; pure (user u)
  perform (user_by_name n) = do u ← get_user_by_name L n; pure (user u)
  perform current_uid = do i ← get_current_uid L; pure (id i)
  perform current_username = do n ← get_current_username L; pure (name n)
  perform effective_uid = do i ← get_effective_uid L; pure (id i)
  perform effective_username = do n ← get_effective_username L; pure (name n)
  perform (group_by_gid gid) = do g ← get_group_by_gid L gid; pure (group g)
  perform (group_by_name n) = do g ← get_group_by_name L n; pure (group g)
  perform current_gid = do i ← get_current_gid L; pure (id i)
  perform current_groupname = do n ← get_current_groupname L; pure (name n)
  perform effective_gid = do i ← get_effective_gid L; pure (id i)
  perform effective_groupname = do n ← get_effective_groupname L; pure (name n)

  pub run : List Call → Exec (UsersCache × L.World) (List Answer)
  run [] = pure []
  run (c ∷ cs) = do a ← perform c; rest ← run cs; pure (a ∷ rest)

  module _ (w : L.World) (D : Directory L w) where
    abbrev pub user_name : ℕ → Answer
    user_name uid = name (Option.map (λ (u : User). u.name_arc) (D.user_by_uid uid))

    abbrev pub group_name : ℕ → Answer
    group_name gid = name (Option.map (λ (g : Group). g.name_arc) (D.group_by_gid gid))

    -- The specification: what the directory and the process answer, with no cache.
    abbrev pub answer : Call → Answer
    answer (user_by_uid uid) = user (D.user_by_uid uid)
    answer (user_by_name n) = user (D.user_by_name n)
    answer current_uid = id (L.getuid w)
    answer current_username = user_name (L.getuid w)
    answer effective_uid = id (L.geteuid w)
    answer effective_username = user_name (L.geteuid w)
    answer (group_by_gid gid) = group (D.group_by_gid gid)
    answer (group_by_name n) = group (D.group_by_name n)
    answer current_gid = id (L.getgid w)
    answer current_groupname = group_name (L.getgid w)
    answer effective_gid = id (L.getegid w)
    answer effective_groupname = group_name (L.getegid w)

    -- IDs are unique: what is found under a key has that key, is found under its own name, and
    -- what is found under a name is what its key leads to.
    pub record IsUnique : Type 0 where
      pub user_own : (k : ℕ) (u : User) → D.user_by_uid k ≡ some u → u.uid ≡ k
      pub user_named :
          (k : ℕ) (u : User) → D.user_by_uid k ≡ some u → D.user_by_name u.name_arc ≡ some u
      pub user_same :
          (n : OsString) (u : User) → D.user_by_name n ≡ some u → D.user_by_uid u.uid ≡ some u
      pub group_own : (k : ℕ) (g : Group) → D.group_by_gid k ≡ some g → g.gid ≡ k
      pub group_named :
          (k : ℕ) (g : Group) → D.group_by_gid k ≡ some g → D.group_by_name g.name_arc ≡ some g
      pub group_same :
          (n : OsString) (g : Group) → D.group_by_name n ≡ some g → D.group_by_gid g.gid ≡ some g

    module _ (Q : IsUnique) where
      abbrev pub users : Source ℕ User (λ u. u.name_arc) (λ u. u.uid)
      users = record {
        at_key = D.user_by_uid;
        at_name = D.user_by_name;
        own_key = Q.user_own;
        own_name = Q.user_named;
        same = Q.user_same;
      }

      abbrev pub groups : Source ℕ Group (λ g. g.name_arc) (λ g. g.gid)
      groups = record {
        at_key = D.group_by_gid;
        at_name = D.group_by_name;
        own_key = Q.group_own;
        own_name = Q.group_named;
        same = Q.group_same;
      }

      -- All that the cache holds is true.
      pub record IsTrue (c : UsersCache) : Type 0 where
        pub users_true : IsCoherent users c.users
        pub groups_true : IsCoherent groups c.groups
        pub uid_true : (i : ℕ) → c.uid ≡ some i → i ≡ L.getuid w
        pub euid_true : (i : ℕ) → c.euid ≡ some i → i ≡ L.geteuid w
        pub gid_true : (i : ℕ) → c.gid ≡ some i → i ≡ L.getgid w
        pub egid_true : (i : ℕ) → c.egid ≡ some i → i ≡ L.getegid w

      -- A call from a true cache gives this, and leaves a true cache and the same world.
      abbrev pub Gives : {A : Type 0} → Exec (UsersCache × L.World) A → A → Type 0
      Gives m a =
          (c : UsersCache)
          → IsTrue c
          → ((m (c, w)).0 ≡ ret a) × ((m (c, w)).1.1 ≡ w) × IsTrue (m (c, w)).1.0
