-- ===== src/Cache/Answers/Methods.antt =====
-- The twelve methods, called on a cache that holds nothing false.
use mathlib.Core.Option
use mathlib.Core.Option.{get_or}
use rust_users.Prelude.{ℕ, ◌≡◌, refl, Option, none, some, nat_eq, bytes_eq}
use rust_users.Std.Exec.{Exec, pure, ◌>>=◌}
use rust_users.Std.Ffi.{OsString}
use rust_users.Libc.{Libc}
use rust_users.Base.Types.{User, Group}
use rust_users.Base.Lookup
use rust_users.Base.Directory.{Directory}
use rust_users.Cache.{
  UsersCache, get_user_by_uid, get_user_by_name, get_current_uid, get_current_username,
  get_effective_uid, get_effective_username, get_group_by_gid, get_group_by_name, get_current_gid,
  get_current_groupname, get_effective_gid, get_effective_groupname,
}
use rust_users.Cache.Cells.{
  get_current_uid_lem, get_effective_uid_lem, get_current_gid_lem, get_effective_gid_lem,
}
use rust_users.Cache.Answers.{IsUnique, IsTrue, Gives, users, groups}
use rust_users.Cache.BiMap
use rust_users.Cache.BiMap.Coherent.{IsCoherent, by_key-IsCoherent, by_name-IsCoherent}

module _ (L : Libc) (w : L.World) (D : Directory L w) (Q : IsUnique L w D) where
  abbrev pub True : UsersCache → Type 0
  True = IsTrue L w D Q

  abbrev pub Give : {A : Type 0} → Exec (UsersCache × L.World) A → A → Type 0
  Give m a = Gives L w D Q m a

  set_users :
      {c : UsersCache} {m : BiMap.BiMap ℕ User}
      → True c
      → IsCoherent (users L w D Q) m
      → True (record c { users = m })
  set_users h t = record {
    users_true = t;
    groups_true = h.groups_true;
    uid_true = h.uid_true;
    euid_true = h.euid_true;
    gid_true = h.gid_true;
    egid_true = h.egid_true;
  }

  set_groups :
      {c : UsersCache} {m : BiMap.BiMap ℕ Group}
      → True c
      → IsCoherent (groups L w D Q) m
      → True (record c { groups = m })
  set_groups h t = record {
    users_true = h.users_true;
    groups_true = t;
    uid_true = h.uid_true;
    euid_true = h.euid_true;
    gid_true = h.gid_true;
    egid_true = h.egid_true;
  }

  pub get_user_by_uid-Gives : (uid : ℕ) → Give (get_user_by_uid L uid) (D.user_by_uid uid)
  unfolding get_user_by_uid
  get_user_by_uid-Gives uid c h =
      let (r, same, t) =
        by_key-IsCoherent (users L w D Q) w (Lookup.get_user_by_uid L) c.users h.users_true uid
          (D.reads_uid uid) in
      (r, same, set_users h t)

  pub get_user_by_name-Gives : (n : OsString) → Give (get_user_by_name L n) (D.user_by_name n)
  unfolding get_user_by_name
  get_user_by_name-Gives n c h =
      let (r, same, t) =
        by_name-IsCoherent (users L w D Q) w (Lookup.get_user_by_name L) c.users h.users_true n
          (D.reads_name n) in
      (r, same, set_users h t)

  pub get_group_by_gid-Gives : (gid : ℕ) → Give (get_group_by_gid L gid) (D.group_by_gid gid)
  unfolding get_group_by_gid
  get_group_by_gid-Gives gid c h =
      let (r, same, t) =
        by_key-IsCoherent (groups L w D Q) w (Lookup.get_group_by_gid L) c.groups h.groups_true gid
          (D.reads_gid gid) in
      (r, same, set_groups h t)

  pub get_group_by_name-Gives : (n : OsString) → Give (get_group_by_name L n) (D.group_by_name n)
  unfolding get_group_by_name
  get_group_by_name-Gives n c h =
      let (r, same, t) =
        by_name-IsCoherent (groups L w D Q) w (Lookup.get_group_by_name L) c.groups h.groups_true n
          (D.reads_groupname n) in
      (r, same, set_groups h t)

  -- A cell that holds the ID or nothing.
  cell_true : (cell : Option ℕ) (i : ℕ) → ((j : ℕ) → cell ≡ some j → j ≡ i) → get_or cell i ≡ i
  cell_true none i h = refl
  cell_true (some j) i h = h j refl

  pub get_current_uid-Gives : Give (get_current_uid L) (L.getuid w)
  get_current_uid-Gives c h =
      rw (get_current_uid_lem L c w, cell_true c.uid (L.getuid w) h.uid_true)
        (
          refl,
          refl,
          record {
            users_true = h.users_true;
            groups_true = h.groups_true;
            uid_true = λ i e. cc;
            euid_true = h.euid_true;
            gid_true = h.gid_true;
            egid_true = h.egid_true;
          },
        )

  pub get_effective_uid-Gives : Give (get_effective_uid L) (L.geteuid w)
  get_effective_uid-Gives c h =
      rw (get_effective_uid_lem L c w, cell_true c.euid (L.geteuid w) h.euid_true)
        (
          refl,
          refl,
          record {
            users_true = h.users_true;
            groups_true = h.groups_true;
            uid_true = h.uid_true;
            euid_true = λ i e. cc;
            gid_true = h.gid_true;
            egid_true = h.egid_true;
          },
        )

  pub get_current_gid-Gives : Give (get_current_gid L) (L.getgid w)
  get_current_gid-Gives c h =
      rw (get_current_gid_lem L c w, cell_true c.gid (L.getgid w) h.gid_true)
        (
          refl,
          refl,
          record {
            users_true = h.users_true;
            groups_true = h.groups_true;
            uid_true = h.uid_true;
            euid_true = h.euid_true;
            gid_true = λ i e. cc;
            egid_true = h.egid_true;
          },
        )

  pub get_effective_gid-Gives : Give (get_effective_gid L) (L.getegid w)
  get_effective_gid-Gives c h =
      rw (get_effective_gid_lem L c w, cell_true c.egid (L.getegid w) h.egid_true)
        (
          refl,
          refl,
          record {
            users_true = h.users_true;
            groups_true = h.groups_true;
            uid_true = h.uid_true;
            euid_true = h.euid_true;
            gid_true = h.gid_true;
            egid_true = λ i e. cc;
          },
        )

  pub Gives-pure : {A : Type 0} (a : A) → Give (pure a) a
  Gives-pure a c h = (refl, refl, h)

  pub Gives-bind :
      {A B : Type 0} (m : Exec (UsersCache × L.World) A) (k : A → Exec (UsersCache × L.World) B)
      (a : A) (b : B)
      → Give m a
      → Give (k a) b
      → Give (m >>= k) b
  Gives-bind m k a b gm gk c h =
      let (r, same, t) = gm c h in
      let s : (m (c, w)).1 ≡ ((m (c, w)).1.0, w) = λ i. ((m (c, w)).1.0, same i) in
      rw (r, s) (gk (m (c, w)).1.0 t)

  module _ (ask : Exec (UsersCache × L.World) ℕ) (i : ℕ) (asked : Give ask i) where
    -- The two steps of the methods that return a name.
    user_name-Gives :
        Give
          (do
            uid ← ask
            user ← get_user_by_uid L uid
            pure (Option.map (λ (u : User). u.name_arc) user))
          (Option.map (λ (u : User). u.name_arc) (D.user_by_uid i))
    user_name-Gives =
        let name : Option User → Option OsString = Option.map (λ u. u.name_arc) in
        Gives-bind ask (λ uid. (get_user_by_uid L uid >>= λ user. pure (name user))) i
          (name (D.user_by_uid i)) asked
          (Gives-bind (get_user_by_uid L i) (λ user. pure (name user)) (D.user_by_uid i)
            (name (D.user_by_uid i)) (get_user_by_uid-Gives i)
            (Gives-pure (name (D.user_by_uid i))))

    group_name-Gives :
        Give
          (do
            gid ← ask
            group ← get_group_by_gid L gid
            pure (Option.map (λ (g : Group). g.name_arc) group))
          (Option.map (λ (g : Group). g.name_arc) (D.group_by_gid i))
    group_name-Gives =
        let name : Option Group → Option OsString = Option.map (λ g. g.name_arc) in
        Gives-bind ask (λ gid. (get_group_by_gid L gid >>= λ group. pure (name group))) i
          (name (D.group_by_gid i)) asked
          (Gives-bind (get_group_by_gid L i) (λ group. pure (name group)) (D.group_by_gid i)
            (name (D.group_by_gid i)) (get_group_by_gid-Gives i)
            (Gives-pure (name (D.group_by_gid i))))

  pub get_current_username-Gives :
      Give
        (get_current_username L)
        (Option.map (λ (u : User). u.name_arc) (D.user_by_uid (L.getuid w)))
  unfolding get_current_username
  get_current_username-Gives =
      user_name-Gives (get_current_uid L) (L.getuid w) get_current_uid-Gives

  pub get_effective_username-Gives :
      Give
        (get_effective_username L)
        (Option.map (λ (u : User). u.name_arc) (D.user_by_uid (L.geteuid w)))
  unfolding get_effective_username
  get_effective_username-Gives =
      user_name-Gives (get_effective_uid L) (L.geteuid w) get_effective_uid-Gives

  pub get_current_groupname-Gives :
      Give
        (get_current_groupname L)
        (Option.map (λ (g : Group). g.name_arc) (D.group_by_gid (L.getgid w)))
  unfolding get_current_groupname
  get_current_groupname-Gives =
      group_name-Gives (get_current_gid L) (L.getgid w) get_current_gid-Gives

  pub get_effective_groupname-Gives :
      Give
        (get_effective_groupname L)
        (Option.map (λ (g : Group). g.name_arc) (D.group_by_gid (L.getegid w)))
  unfolding get_effective_groupname
  get_effective_groupname-Gives =
      group_name-Gives (get_effective_gid L) (L.getegid w) get_effective_gid-Gives
