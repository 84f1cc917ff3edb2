-- ===== src/Tests/Mocking.antt =====
-- mock.rs and the traits at concrete inputs.
use rust_users.Prelude.{ℕ, ◌≡◌, ◌≢◌, some, none, List, [], ◌∷◌, codes, arith, nat_eq, bytes_eq}
use rust_users.Std.HashMap.{HashMap, get}
use rust_users.Base.Types.{User, Group}
use rust_users.Mock.{MockUsers, with_current_uid, get_user_by_uid, get_user_by_name, find}
use rust_users.Mock.View.{View, Call, run, specified, view, mock_refines}
use rust_users.Mock.Table.{IsOrder}
use rust_users.Mock.Results.{IsValid, get_user_by_name_some, get_user_by_name_none}
use rust_users.Tests.Readable.{user_of, root, fred, root_group, fred_group}

abbrev mock : MockUsers
mock = record {
  users = (0, root) ∷ (1337, fred) ∷ [];
  groups = (0, root_group) ∷ (1337, fred_group) ∷ [];
  uid = 1337;
}

mock_table-IsValid : IsValid mock
unfolding get
mock_table-IsValid = record { users = ground arith; groups = ground arith }

abbrev jane : User
jane = user_of (codes "jane") 1337

abbrev staff : Group
staff = record { gid = 50; extras = record { members = [] }; name_arc = codes "staff" }

-- The values in the order of the list.
abbrev in_order : {V : Type 0} → HashMap ℕ V → List V
in_order [] = []
in_order ((k, v) ∷ m) = v ∷ in_order m

in_order-IsOrder : {V : Type 0} → IsOrder (in_order {V = V})
in_order-IsOrder [] v = (λ h. h, λ h. h)
in_order-IsOrder ((k, u) ∷ m) v = ground (arith, in_order-IsOrder m v)

get_user_by_name_some_example :
    (fred.name_arc ≡ codes "fred") × (get_user_by_uid 1337 mock ≡ some fred)
unfolding get_user_by_name find
get_user_by_name_some_example =
    get_user_by_name_some in_order in_order-IsOrder mock mock_table-IsValid (codes "fred") fred
      (ground arith)

get_user_by_name_none_example : fred.name_arc ≢ codes "jane"
unfolding get_user_by_name find get_user_by_uid get
get_user_by_name_none_example =
    get_user_by_name_none in_order in_order-IsOrder mock mock_table-IsValid (codes "jane") fred
      (ground arith) (ground arith)

abbrev history : List Call
history = Call.add_user fred ∷ Call.add_user jane ∷ Call.current_username ∷ Call.user_by_uid 0 ∷ []

mock_refines_example :
    let none_yet : View = record { users = λ i. none; groups = λ i. none; uid = 1337 } in
    let (answers, m) = run history (with_current_uid 1337) in
    (answers ≡ (specified history none_yet).0) × (view m ≡ (specified history none_yet).1)
mock_refines_example = mock_refines 1337 history
