-- ===== src/Mock/Unordered.antt =====
-- Mocks without the order of their tables: two mocks are one if their tables hold the same.
use mathlib.Core.Quot
use mathlib.Core.Quot.{Quot, Quot-set}
use rust_users.Prelude.{ℕ, ◌≡◌, ◌≢◌, refl, Option, some, arith, ◌==◌, nat_eq, if◌then◌else◌}
use rust_users.Std.HashMap.{get, insert, get-insert}
use rust_users.Base.Types.{User}
use rust_users.Mock
use rust_users.Mock.{MockUsers}

abbrev HoldSame : MockUsers → MockUsers → Type 0
HoldSame m n =
    ((i : ℕ) → get i m.users ≡ get i n.users)
    × ((i : ℕ) → get i m.groups ≡ get i n.groups)
    × (m.uid ≡ n.uid)

abbrev pub Unordered : Type 0
Unordered = Quot HoldSame

add_user-HoldSame :
    (u : User) (m n : MockUsers)
    → HoldSame m n
    → HoldSame (Mock.add_user u m).1 (Mock.add_user u n).1
unfolding Mock.add_user
add_user-HoldSame u m n (users, groups, uid) = (
  λ i. ground (arith, get-insert i u.uid u m.users, get-insert i u.uid u n.users, users i),
  groups,
  uid,
)

-- `add_user` does not look at the order.
pub add_user : User → Unordered → Unordered
add_user u =
    Quot.lift Quot-set (λ m. Quot.mk (Mock.add_user u m).1)
      (λ m n h. Quot.sound (add_user-HoldSame u m n h))

users_set : IsSet (Option User)
users_set = hlevel

-- Nor does `get_user_by_uid`.
pub get_user_by_uid : ℕ → Unordered → Option User
unfolding Mock.get_user_by_uid
get_user_by_uid uid = Quot.lift users_set (Mock.get_user_by_uid uid) (λ m n h. h.0 uid)

swapped :
    (u v : User) (m : MockUsers)
    → u.uid ≢ v.uid
    → HoldSame (Mock.add_user u (Mock.add_user v m).1).1 (Mock.add_user v (Mock.add_user u m).1).1
unfolding Mock.add_user
swapped u v m ne = (
  λ i. ground (
    arith,
    get-insert i u.uid u (insert v.uid v m.users),
    get-insert i v.uid v m.users,
    get-insert i v.uid v (insert u.uid u m.users),
    get-insert i u.uid u m.users,
  ),
  λ i. refl,
  refl,
)

-- On mocks without an order, adding two users with different IDs does not depend on which comes
-- first, and a lookup by ID after an addition finds the user that was added, or what it would have
-- found before.
unordered_adds :
    (u v : User) (i : ℕ) (q : Unordered)
    → u.uid ≢ v.uid
    → (add_user u (add_user v q) ≡ add_user v (add_user u q))
      × (get_user_by_uid i (add_user u q) ≡ (if i == u.uid then some u else get_user_by_uid i q))
unfolding add_user get_user_by_uid Mock.get_user_by_uid Mock.add_user
unordered_adds u v i q ne = (
  Quot.ind {β = λ p. add_user u (add_user v p) ≡ add_user v (add_user u p)} (λ p. Quot-set _ _)
      (λ m. Quot.sound (swapped u v m ne)) q,
  Quot.ind
      {β = λ p.
        get_user_by_uid i (add_user u p) ≡ (if i == u.uid then some u else get_user_by_uid i p)}
      (λ p. users_set _ _) (λ m. get-insert i u.uid u m.users) q,
)
