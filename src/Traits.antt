-- ===== src/Traits.antt =====
-- traits.rs: the traits `Users` and `Groups`, as records of operations on a state, and the law that
-- programs written against them rely on. `UsersCache` and `MockUsers` implement both.
pub mod Instances
use mathlib.Core.Option
use rust_users.Prelude.{ℕ, ◌≡◌, Option}
use rust_users.Std.Exec.{Exec, ret, pure, ◌>>=◌}
use rust_users.Std.Ffi.{OsString}
use rust_users.Base.Types.{User, Group}

pub record Users (S : Type 0) : Type 0 where
  pub get_user_by_uid : ℕ → Exec S (Option User)
  pub get_user_by_name : OsString → Exec S (Option User)
  pub get_current_uid : Exec S ℕ
  pub get_current_username : Exec S (Option OsString)
  pub get_effective_uid : Exec S ℕ
  pub get_effective_username : Exec S (Option OsString)

pub record Groups (S : Type 0) : Type 0 where
  pub get_group_by_gid : ℕ → Exec S (Option Group)
  pub get_group_by_name : OsString → Exec S (Option Group)
  pub get_current_gid : Exec S ℕ
  pub get_current_groupname : Exec S (Option OsString)
  pub get_effective_gid : Exec S ℕ
  pub get_effective_groupname : Exec S (Option OsString)

module _ {S : Type 0} where
  abbrev pub user_name : Users S → ℕ → Exec S (Option OsString)
  user_name T uid = do
    user ← T.get_user_by_uid uid
    pure (Option.map (λ (u : User). u.name_arc) user)

  abbrev pub group_name : Groups S → ℕ → Exec S (Option OsString)
  group_name T gid = do
    group ← T.get_group_by_gid gid
    pure (Option.map (λ (g : Group). g.name_arc) group)

  -- The computation, run a second time at once, returns what it returned and changes nothing.
  abbrev pub Repeats : {A : Type 0} → (S → Type 0) → Exec S A → Type 0
  Repeats {A} Inv m = (s : S) (a : A) → Inv s → (m s).0 ≡ ret a → m (m s).1 ≡ (ret a, (m s).1)

  -- The name of the process is that of the user under its ID, and lookups can be repeated.
  pub record IsLawfulUsers (Inv : S → Type 0) (T : Users S) : Type 0 where
    pub current_name : (s : S) → T.get_current_username s ≡ (T.get_current_uid >>= user_name T) s
    pub effective_name :
        (s : S) → T.get_effective_username s ≡ (T.get_effective_uid >>= user_name T) s
    pub by_uid : (uid : ℕ) → Repeats Inv (T.get_user_by_uid uid)
    pub by_name : (name : OsString) → Repeats Inv (T.get_user_by_name name)
    pub current : Repeats Inv T.get_current_uid
    pub effective : Repeats Inv T.get_effective_uid

  pub record IsLawfulGroups (Inv : S → Type 0) (T : Groups S) : Type 0 where
    pub current_name : (s : S) → T.get_current_groupname s ≡ (T.get_current_gid >>= group_name T) s
    pub effective_name :
        (s : S) → T.get_effective_groupname s ≡ (T.get_effective_gid >>= group_name T) s
    pub by_gid : (gid : ℕ) → Repeats Inv (T.get_group_by_gid gid)
    pub by_name : (name : OsString) → Repeats Inv (T.get_group_by_name name)
    pub current : Repeats Inv T.get_current_gid
    pub effective : Repeats Inv T.get_effective_gid
