-- ===== src/Examples/CurrentUser.antt =====
-- A new cache that is asked for the real user ID, and then for its user.
use rust_users.Prelude.{◌≡◌}
use rust_users.Std.Exec.{ret}
use rust_users.Libc.{Libc}
use rust_users.Base.Directory.{Directory}
use rust_users.Cache.{UsersCache, new, get_current_uid, get_user_by_uid}
use rust_users.Cache.Answers.{IsUnique, IsTrue}
use rust_users.Cache.Answers.Methods.{get_current_uid-Gives, get_user_by_uid-Gives}
use rust_users.Cache.Answers.Refines.{new-IsTrue}

module _ (L : Libc) (w : L.World) (D : Directory L w) (Q : IsUnique L w D) where
  pub current_user_lem :
      (c : UsersCache) × (get_current_uid L (new, w) ≡ (ret (L.getuid w), (c, w)))
      × (c' : UsersCache) × IsTrue L w D Q c'
      × (get_user_by_uid L (L.getuid w) (c, w) ≡ (ret (D.user_by_uid (L.getuid w)), (c', w)))
  current_user_lem =
      let (r, same, t) = get_current_uid-Gives L w D Q new (new-IsTrue L w D Q) in
      let m = get_current_uid L (new, w) in
      let (r', same', t') = get_user_by_uid-Gives L w D Q (L.getuid w) m.1.0 t in
      let m' = get_user_by_uid L (L.getuid w) (m.1.0, w) in
      (m.1.0, λ i. (r i, (m.1.0, same i)), m'.1.0, t', λ i. (r' i, (m'.1.0, same' i)))
