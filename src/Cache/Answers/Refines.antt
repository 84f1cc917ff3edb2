-- ===== src/Cache/Answers/Refines.antt =====
-- Runs of calls on a cache, against the specification.
use mathlib.Core.Option
use mathlib.Core.Option.{get_or}
use rust_users.Prelude.{◌≡◌, List, [], ◌∷◌, map, nat_eq, bytes_eq}
use rust_users.Std.Exec.{Exec, ret, pure, ◌>>=◌}
use rust_users.Std.HashMap.{get}
use rust_users.Libc.{Libc}
use rust_users.Base.Types.{User, Group}
use rust_users.Base.Directory.{Directory}
use rust_users.Cache.{
  UsersCache, new, get_user_by_uid, get_user_by_name, get_current_uid, get_current_username,
  get_effective_uid, get_effective_username, get_group_by_gid, get_group_by_name, get_current_gid,
  get_current_groupname, get_effective_gid, get_effective_groupname,
}
use rust_users.Cache.Answers.{
  Call, Answer, perform, run, answer, IsUnique, IsTrue, Gives, users, groups,
}
use rust_users.Cache.BiMap
use rust_users.Cache.BiMap.Closed.{empty-IsClosed}
use rust_users.Cache.BiMap.Coherent.{IsCoherent}
use rust_users.Cache.Answers.Methods.{
  Gives-bind, Gives-pure, get_current_gid-Gives, get_current_groupname-Gives, get_current_uid-Gives,
  get_current_username-Gives, get_effective_gid-Gives, get_effective_groupname-Gives,
  get_effective_uid-Gives, get_effective_username-Gives, get_group_by_gid-Gives,
  get_group_by_name-Gives, get_user_by_name-Gives, get_user_by_uid-Gives,
}

module _ (L : Libc) (w : L.World) (D : Directory L w) (Q : IsUnique L w D) where
  abbrev True : UsersCache → Type 0
  True = IsTrue L w D Q

  abbrev Give : {A : Type 0} → Exec (UsersCache × L.World) A → A → Type 0
  Give m a = Gives L w D Q m a

  -- A result, put into an answer.
  Gives-answer :
      {A : Type 0} (m : Exec (UsersCache × L.World) A) (f : A → Answer) (a : A)
      → Give m a
      → Give (m >>= λ x. pure (f x)) (f a)
  Gives-answer m f a g = Gives-bind L w D Q m (λ x. pure (f x)) a (f a) g (Gives-pure L w D Q (f a))

  perform-Gives : (call : Call) → Give (perform L call) (answer L w D call)
  unfolding perform
  perform-Gives (Call.user_by_uid uid) =
      Gives-answer (get_user_by_uid L uid) Answer.user (D.user_by_uid uid)
        (get_user_by_uid-Gives L w D Q uid)
  perform-Gives (Call.user_by_name n) =
      Gives-answer (get_user_by_name L n) Answer.user (D.user_by_name n)
        (get_user_by_name-Gives L w D Q n)
  perform-Gives Call.current_uid =
      Gives-answer (get_current_uid L) Answer.id (L.getuid w) (get_current_uid-Gives L w D Q)
  perform-Gives Call.current_username =
      Gives-answer (get_current_username L) Answer.name
        (Option.map (λ (x : User). x.name_arc) (D.user_by_uid (L.getuid w)))
        (get_current_username-Gives L w D Q)
  perform-Gives Call.effective_uid =
      Gives-answer (get_effective_uid L) Answer.id (L.geteuid w) (get_effective_uid-Gives L w D Q)
  perform-Gives Call.effective_username =
      Gives-answer (get_effective_username L) Answer.name
        (Option.map (λ (x : User). x.name_arc) (D.user_by_uid (L.geteuid w)))
        (get_effective_username-Gives L w D Q)
  perform-Gives (Call.group_by_gid gid) =
      Gives-answer (get_group_by_gid L gid) Answer.group (D.group_by_gid gid)
        (get_group_by_gid-Gives L w D Q gid)
  perform-Gives (Call.group_by_name n) =
      Gives-answer (get_group_by_name L n) Answer.group (D.group_by_name n)
        (get_group_by_name-Gives L w D Q n)
  perform-Gives Call.current_gid =
      Gives-answer (get_current_gid L) Answer.id (L.getgid w) (get_current_gid-Gives L w D Q)
  perform-Gives Call.current_groupname =
      Gives-answer (get_current_groupname L) Answer.name
        (Option.map (λ (x : Group). x.name_arc) (D.group_by_gid (L.getgid w)))
        (get_current_groupname-Gives L w D Q)
  perform-Gives Call.effective_gid =
      Gives-answer (get_effective_gid L) Answer.id (L.getegid w) (get_effective_gid-Gives L w D Q)
  perform-Gives Call.effective_groupname =
      Gives-answer (get_effective_groupname L) Answer.name
        (Option.map (λ (x : Group). x.name_arc) (D.group_by_gid (L.getegid w)))
        (get_effective_groupname-Gives L w D Q)

  run-Gives : (calls : List Call) → Give (run L calls) (map (answer L w D) calls)
  unfolding run
  run-Gives [] = Gives-pure L w D Q []
  run-Gives (call ∷ calls) =
      let all = map (answer L w D) calls in
      Gives-bind L w D Q (perform L call) (λ a. (run L calls >>= λ rest. pure (a ∷ rest)))
        (answer L w D call) (answer L w D call ∷ all) (perform-Gives call)
        (Gives-bind L w D Q (run L calls) (λ rest. pure (answer L w D call ∷ rest)) all
          (answer L w D call ∷ all) (run-Gives calls)
          (Gives-pure L w D Q (answer L w D call ∷ all)))

  empty-IsCoherent_users : IsCoherent (users L w D Q) BiMap.empty
  unfolding get
  empty-IsCoherent_users = record {
    closed = empty-IsClosed;
    key_true = λ k r e. cc;
    absent_true = λ n e. cc;
    name_true = λ n k e. cc;
  }

  empty-IsCoherent_groups : IsCoherent (groups L w D Q) BiMap.empty
  unfolding get
  empty-IsCoherent_groups = record {
    closed = empty-IsClosed;
    key_true = λ k r e. cc;
    absent_true = λ n e. cc;
    name_true = λ n k e. cc;
  }

  pub new-IsTrue : True new
  new-IsTrue = record {
    users_true = empty-IsCoherent_users;
    groups_true = empty-IsCoherent_groups;
    uid_true = λ i e. cc;
    euid_true = λ i e. cc;
    gid_true = λ i e. cc;
    egid_true = λ i e. cc;
  }

  -- Over a directory that holds still and whose IDs are unique, any calls of the twelve methods on
  -- a new cache, in any order, return what the directory and the process answer. The world stays as
  -- it is, and all that the cache then holds is true.
  pub run_refines :
      (calls : List Call)
      → let (r, (c, w')) = run L calls (new, w) in
        (r ≡ ret (map (answer L w D) calls)) × (w' ≡ w) × IsTrue L w D Q c
  run_refines calls = run-Gives calls new new-IsTrue
