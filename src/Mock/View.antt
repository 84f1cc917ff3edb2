-- ===== src/Mock/View.antt =====
-- The specification of a mock: two functions from IDs and a current ID, with no tables behind them.
use mathlib.Core.Option
use mathlib.Core.Path.{ap₂}
use rust_users.Prelude.{
  ℕ, ◌≡◌, refl, Option, none, some, List, [], ◌∷◌, ◌==◌, nat_eq, if◌then◌else◌,
}
use rust_users.Std.Ffi.{OsString}
use rust_users.Std.HashMap.{get, get-insert}
use rust_users.Base.Types.{User, Group}
use rust_users.Mock
use rust_users.Mock.{
  MockUsers, with_current_uid, get_user_by_uid, get_current_uid, get_current_username,
  get_effective_uid, get_effective_username, get_group_by_gid, get_current_gid,
  get_current_groupname, get_effective_gid, get_effective_groupname,
}

pub record View : Type 0 where
  pub users : ℕ → Option User
  pub groups : ℕ → Option Group
  pub uid : ℕ

abbrev pub view : MockUsers → View
view m = record { users = λ i. get i m.users; groups = λ i. get i m.groups; uid = m.uid }

abbrev put {ℓ} : {A : Type ℓ} → ℕ → A → (ℕ → Option A) → ℕ → Option A
put i a f j = if j == i then some a else f j

-- A call of a method that does not depend on the order of the tables.
pub data Call : Type 0 where
  add_user : User → Call
  add_group : Group → Call
  user_by_uid group_by_gid : ℕ → Call
  current_uid effective_uid current_gid effective_gid : Call
  current_username effective_username current_groupname effective_groupname : Call

pub data Answer : Type 0 where
  user : Option User → Answer
  group : Option Group → Answer
  id : ℕ → Answer
  name : Option OsString → Answer

abbrev pub perform : Call → MockUsers → Answer × MockUsers
perform (add_user u) m = let (old, m') = Mock.add_user u m in (user old, m')
perform (add_group g) m = let (old, m') = Mock.add_group g m in (group old, m')
perform (user_by_uid i) m = (user (get_user_by_uid i m), m)
perform (group_by_gid i) m = (group (get_group_by_gid i m), m)
perform current_uid m = (id (get_current_uid m), m)
perform effective_uid m = (id (get_effective_uid m), m)
perform current_gid m = (id (get_current_gid m), m)
perform effective_gid m = (id (get_effective_gid m), m)
perform current_username m = (name (get_current_username m), m)
perform effective_username m = (name (get_effective_username m), m)
perform current_groupname m = (name (get_current_groupname m), m)
perform effective_groupname m = (name (get_effective_groupname m), m)

-- What the calls should return, and what they should leave.
module _ (v : View) where
  abbrev pub user_name : Option OsString
  user_name = Option.map (λ (u : User). u.name_arc) (v.users v.uid)

  abbrev pub group_name : Option OsString
  group_name = Option.map (λ (g : Group). g.name_arc) (v.groups v.uid)

  abbrev pub answer : Call → Answer
  answer (add_user u) = user (v.users u.uid)
  answer (add_group g) = group (v.groups g.gid)
  answer (user_by_uid i) = user (v.users i)
  answer (group_by_gid i) = group (v.groups i)
  answer current_uid = id v.uid
  answer effective_uid = id v.uid
  answer current_gid = id v.uid
  answer effective_gid = id v.uid
  answer current_username = name user_name
  answer effective_username = name user_name
  answer current_groupname = name group_name
  answer effective_groupname = name group_name

  abbrev pub after : Call → View
  after (add_user u) = record v { users = put u.uid u v.users }
  after (add_group g) = record v { groups = put g.gid g v.groups }
  after _ = v

unfoldable pub run : List Call → MockUsers → List Answer × MockUsers
run [] m = ([], m)
run (c ∷ cs) m = let (a, m') = perform c m in let (as', m'') = run cs m' in (a ∷ as', m'')

pub specified : List Call → View → List Answer × View
specified [] v = ([], v)
specified (c ∷ cs) v = let (as', v') = specified cs (after v c) in (answer v c ∷ as', v')

view-add_user :
    (u : User) (m : MockUsers) → view (Mock.add_user u m).1 ≡ after (view m) (add_user u)
unfolding Mock.add_user
view-add_user u m = λ i. record (view m) { users = λ k. get-insert k u.uid u m.users i }

view-add_group :
    (g : Group) (m : MockUsers) → view (Mock.add_group g m).1 ≡ after (view m) (add_group g)
unfolding Mock.add_group
view-add_group g m = λ i. record (view m) { groups = λ k. get-insert k g.gid g m.groups i }

step_lem :
    (c : Call) (m : MockUsers)
    → ((perform c m).0 ≡ answer (view m) c) × (view (perform c m).1 ≡ after (view m) c)
unfolding Mock.add_user Mock.add_group get_user_by_uid get_current_uid get_current_username
    get_effective_uid get_effective_username get_group_by_gid get_current_gid get_current_groupname
    get_effective_gid get_effective_groupname
step_lem (add_user u) m = (refl, view-add_user u m)
step_lem (add_group g) m = (refl, view-add_group g m)
step_lem (user_by_uid i) m = (refl, refl)
step_lem (group_by_gid i) m = (refl, refl)
step_lem current_uid m = (refl, refl)
step_lem effective_uid m = (refl, refl)
step_lem current_gid m = (refl, refl)
step_lem effective_gid m = (refl, refl)
step_lem current_username m = (refl, refl)
step_lem effective_username m = (refl, refl)
step_lem current_groupname m = (refl, refl)
step_lem effective_groupname m = (refl, refl)

run_lem :
    (cs : List Call) (m : MockUsers)
    → ((run cs m).0 ≡ (specified cs (view m)).0) × (view (run cs m).1 ≡ (specified cs (view m)).1)
unfolding run specified
run_lem [] m = (refl, refl)
run_lem (c ∷ cs) m =
    let (a, e) = step_lem c m in
    let (as', e') = run_lem cs (perform c m).1 in (rw (← e) (ap₂ ◌∷◌ a as'), rw (← e) e')

-- Any calls on a new mock, of all methods but the lookups by name, return what the specification
-- returns, and leave tables that hold what it holds.
pub mock_refines :
    (current : ℕ) (cs : List Call)
    → let none_yet : View = record { users = λ i. none; groups = λ i. none; uid = current } in
      let (answers, m) = run cs (with_current_uid current) in
      (answers ≡ (specified cs none_yet).0) × (view m ≡ (specified cs none_yet).1)
unfolding with_current_uid get
mock_refines current cs = run_lem cs (with_current_uid current)
