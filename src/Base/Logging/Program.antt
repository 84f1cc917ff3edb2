-- ===== src/Base/Logging/Program.antt =====
-- Programs that call the functions of base.rs, with logging and without.
use rust_users.Prelude.{ℕ, ◌≡◌, refl, Option, List}
use rust_users.Std.Exec.{Exec, IoResult, pure, ◌>>=◌}
use rust_users.Std.Ffi.{OsString}
use rust_users.Libc.{Libc}
use rust_users.Base.Types.{User, Group}
use rust_users.Base.Lookup
use rust_users.Base.Process
use rust_users.Base.GroupLists
use rust_users.Base.AllUsers
use rust_users.Base.Logging
use rust_users.Base.Logging.{Message, Logged}
use rust_users.Base.Logging.Silent.{
  IsSilent, bind-IsSilent, get_user_by_uid-IsSilent, get_user_by_name-IsSilent,
  get_group_by_gid-IsSilent, get_group_by_name-IsSilent, get_current_username-IsSilent,
  get_effective_username-IsSilent, get_current_groupname-IsSilent, get_effective_groupname-IsSilent,
  group_access_list-IsSilent, get_user_groups-IsSilent, next-IsSilent,
}

-- The functions of base.rs. `all_users`, `next_user` and `drop_users` are the three parts of a loop
-- over all users.
pub data Call : Type 0 where
  user_by_uid group_by_gid : ℕ → Call
  user_by_name group_by_name : OsString → Call
  current_uid effective_uid current_gid effective_gid : Call
  current_username effective_username current_groupname effective_groupname : Call
  access_list : Call
  groups_of : OsString → ℕ → Call
  all_users next_user drop_users : Call

unfoldable pub Answer : Call → Type 0
Answer (Call.user_by_uid uid) = Option User
Answer (Call.group_by_gid gid) = Option Group
Answer (Call.user_by_name name) = Option User
Answer (Call.group_by_name name) = Option Group
Answer Call.current_uid = ℕ
Answer Call.effective_uid = ℕ
Answer Call.current_gid = ℕ
Answer Call.effective_gid = ℕ
Answer Call.current_username = Option OsString
Answer Call.effective_username = Option OsString
Answer Call.current_groupname = Option OsString
Answer Call.effective_groupname = Option OsString
Answer Call.access_list = IoResult (List Group)
Answer (Call.groups_of name gid) = Option (List Group)
Answer Call.all_users = Unit
Answer Call.next_user = Option User
Answer Call.drop_users = Unit

-- A program that makes calls one after another, each chosen by the answers before it.
pub data Program (A : Type 0) : Type 0 where
  result : A → Program A
  ask : (c : Call) → (Answer c → Program A) → Program A

pub run : {S A : Type 0} → ((c : Call) → Exec S (Answer c)) → Program A → Exec S A
run perform (result a) = pure a
run perform (ask c next) = perform c >>= λ answer. run perform (next answer)

module _ (L : Libc) where
  pub perform : (c : Call) → Exec L.World (Answer c)
  unfolding Answer
  perform (Call.user_by_uid uid) = Lookup.get_user_by_uid L uid
  perform (Call.group_by_gid gid) = Lookup.get_group_by_gid L gid
  perform (Call.user_by_name name) = Lookup.get_user_by_name L name
  perform (Call.group_by_name name) = Lookup.get_group_by_name L name
  perform Call.current_uid = Process.get_current_uid L
  perform Call.effective_uid = Process.get_effective_uid L
  perform Call.current_gid = Process.get_current_gid L
  perform Call.effective_gid = Process.get_effective_gid L
  perform Call.current_username = Process.get_current_username L
  perform Call.effective_username = Process.get_effective_username L
  perform Call.current_groupname = Process.get_current_groupname L
  perform Call.effective_groupname = Process.get_effective_groupname L
  perform Call.access_list = GroupLists.group_access_list L
  perform (Call.groups_of name gid) = GroupLists.get_user_groups L name gid
  perform Call.all_users = AllUsers.all_users L
  perform Call.next_user = AllUsers.next L
  perform Call.drop_users = AllUsers.drop_users L

  pub perform_logged : (c : Call) → Exec (Logged L.World) (Answer c)
  unfolding Answer
  perform_logged (Call.user_by_uid uid) = Logging.get_user_by_uid L uid
  perform_logged (Call.group_by_gid gid) = Logging.get_group_by_gid L gid
  perform_logged (Call.user_by_name name) = Logging.get_user_by_name L name
  perform_logged (Call.group_by_name name) = Logging.get_group_by_name L name
  perform_logged Call.current_uid = Logging.get_current_uid L
  perform_logged Call.effective_uid = Logging.get_effective_uid L
  perform_logged Call.current_gid = Logging.get_current_gid L
  perform_logged Call.effective_gid = Logging.get_effective_gid L
  perform_logged Call.current_username = Logging.get_current_username L
  perform_logged Call.effective_username = Logging.get_effective_username L
  perform_logged Call.current_groupname = Logging.get_current_groupname L
  perform_logged Call.effective_groupname = Logging.get_effective_groupname L
  perform_logged Call.access_list = Logging.group_access_list L
  perform_logged (Call.groups_of name gid) = Logging.get_user_groups L name gid
  perform_logged Call.all_users = Logging.all_users L
  perform_logged Call.next_user = Logging.next L
  perform_logged Call.drop_users = Logging.drop_users L

  perform-IsSilent : (c : Call) → IsSilent (perform_logged c) (perform c)
  unfolding perform perform_logged Answer Logging.get_current_uid Logging.get_effective_uid
      Logging.get_current_gid Logging.get_effective_gid Process.get_current_uid
      Process.get_effective_uid Process.get_current_gid Process.get_effective_gid Logging.all_users
      Logging.drop_users AllUsers.all_users AllUsers.drop_users
  perform-IsSilent (Call.user_by_uid uid) = get_user_by_uid-IsSilent L uid
  perform-IsSilent (Call.group_by_gid gid) = get_group_by_gid-IsSilent L gid
  perform-IsSilent (Call.user_by_name name) = get_user_by_name-IsSilent L name
  perform-IsSilent (Call.group_by_name name) = get_group_by_name-IsSilent L name
  perform-IsSilent Call.current_uid = λ log w. refl
  perform-IsSilent Call.effective_uid = λ log w. refl
  perform-IsSilent Call.current_gid = λ log w. refl
  perform-IsSilent Call.effective_gid = λ log w. refl
  perform-IsSilent Call.current_username = get_current_username-IsSilent L
  perform-IsSilent Call.effective_username = get_effective_username-IsSilent L
  perform-IsSilent Call.current_groupname = get_current_groupname-IsSilent L
  perform-IsSilent Call.effective_groupname = get_effective_groupname-IsSilent L
  perform-IsSilent Call.access_list = group_access_list-IsSilent L
  perform-IsSilent (Call.groups_of name gid) = get_user_groups-IsSilent L name gid
  perform-IsSilent Call.all_users = λ log w. refl
  perform-IsSilent Call.next_user = next-IsSilent L
  perform-IsSilent Call.drop_users = λ log w. refl

  -- A program that calls the functions of base.rs, each call chosen by the answers before it, ends
  -- in the same way, with the same value or fault and in the same world, whether it is built with
  -- the feature `logging` or without.
  pub logging_is_silent :
      {A : Type 0} (p : Program A) (log : List Message) (w : L.World)
      → let (r, (log', w')) = run perform_logged p (log, w) in (r, w') ≡ run perform p w
  unfolding run
  logging_is_silent (result a) log w = refl
  logging_is_silent (ask c next) log w =
      bind-IsSilent (perform_logged c) (perform c) (λ a. run perform_logged (next a))
        (λ a. run perform (next a)) (perform-IsSilent c) (λ a. logging_is_silent (next a)) log w
