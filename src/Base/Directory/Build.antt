-- ===== src/Base/Directory/Build.antt =====
-- A directory out of a well-formed database.
use mathlib.Core.Option
use rust_users.Prelude.{
  ℕ, ◌≤◌, ◌≡◌, Option, none, some, Option-cases, inl, inr, [], ◌∷◌, ◌++◌, arith, if◌then◌else◌,
}
use rust_users.Std.Exec.{ret}
use rust_users.Std.Ffi.{OsString, has_nul}
use rust_users.Libc.{Libc, Passwd, CGroup}
use rust_users.Libc.Database.{Database}
use rust_users.Base.Types.{User, Group}
use rust_users.Base.Raw.Strings.{IsPasswdOf, IsStructOf, passwd_to_user_lem, struct_to_group_lem}
use rust_users.Base.Lookup.{get_user_by_uid, get_user_by_name, get_group_by_gid, get_group_by_name}
use rust_users.Base.Lookup.Loop.{largest}
use rust_users.Base.Lookup.Results.{lookup_by_id_lem, lookup_by_name_lem}
use rust_users.Base.Directory.{Directory}

-- Every record of the database fits the largest buffer and is that of a user or a group: no
-- field is a null pointer, and every string ends.
pub record IsReadable (L : Libc) (D : Database L) (w : L.World) : Type 0 where
  pub user : Passwd → User
  pub group : CGroup → Group
  pub uid_fits : (uid : ℕ) → D.uid_needs w uid ≤ largest
  pub name_fits : (name : OsString) → D.name_needs w name ≤ largest
  pub gid_fits : (gid : ℕ) → D.gid_needs w gid ≤ largest
  pub groupname_fits : (name : OsString) → D.groupname_needs w name ≤ largest
  pub uid_holds : (uid : ℕ) (p : Passwd) → D.user_by_uid w uid ≡ some p → IsPasswdOf p (user p)
  pub name_holds :
      (name : OsString) (p : Passwd) → D.user_by_name w name ≡ some p → IsPasswdOf p (user p)
  pub gid_holds : (gid : ℕ) (c : CGroup) → D.group_by_gid w gid ≡ some c → IsStructOf c (group c)
  pub groupname_holds :
      (name : OsString) (c : CGroup) → D.group_by_name w name ≡ some c → IsStructOf c (group c)

module _ (L : Libc) (D : Database L) (w : L.World) (R : IsReadable L D w) where
  abbrev user_at : ℕ → Option User
  user_at uid = Option.map R.user (D.user_by_uid w uid)

  abbrev pub user_named : OsString → Option User
  user_named name =
      if has_nul name then none else Option.map R.user (D.user_by_name w (name ++ 0 ∷ []))

  abbrev group_at : ℕ → Option Group
  group_at gid = Option.map R.group (D.group_by_gid w gid)

  abbrev pub group_named : OsString → Option Group
  group_named name =
      if has_nul name then none else Option.map R.group (D.group_by_name w (name ++ 0 ∷ []))

  pub reads_user_at : (uid : ℕ) → get_user_by_uid L uid w ≡ (ret (user_at uid), w)
  reads_user_at uid =
      let (found, _) = lookup_by_id_lem L D w uid (R.uid_fits uid) (R.gid_fits uid) in
      elim (Option-cases (D.user_by_uid w uid)) [
        | inl e ↦ ground (arith, e, found)
        | inr (p, e) ↦
            ground (arith, e, found, passwd_to_user_lem p (R.user p) (R.uid_holds uid p e))
      ]

  pub reads_group_at : (gid : ℕ) → get_group_by_gid L gid w ≡ (ret (group_at gid), w)
  reads_group_at gid =
      let (_, found) = lookup_by_id_lem L D w gid (R.uid_fits gid) (R.gid_fits gid) in
      elim (Option-cases (D.group_by_gid w gid)) [
        | inl e ↦ ground (arith, e, found)
        | inr (c, e) ↦
            ground (arith, e, found, struct_to_group_lem c (R.group c) (R.gid_holds gid c e))
      ]

  pub reads_user_named : (name : OsString) → get_user_by_name L name w ≡ (ret (user_named name), w)
  reads_user_named name =
      let c = name ++ 0 ∷ [] in
      let (found, _) = lookup_by_name_lem L D w name (R.name_fits c) (R.groupname_fits c) in
      elim (Option-cases (D.user_by_name w c)) [
        | inl e ↦ ground (arith, e, found)
        | inr (p, e) ↦
            ground (arith, e, found, passwd_to_user_lem p (R.user p) (R.name_holds c p e))
      ]

  pub reads_group_named :
      (name : OsString) → get_group_by_name L name w ≡ (ret (group_named name), w)
  reads_group_named name =
      let c = name ++ 0 ∷ [] in
      let (_, found) = lookup_by_name_lem L D w name (R.name_fits c) (R.groupname_fits c) in
      elim (Option-cases (D.group_by_name w c)) [
        | inl e ↦ ground (arith, e, found)
        | inr (g, e) ↦
            ground (arith, e, found, struct_to_group_lem g (R.group g) (R.groupname_holds c g e))
      ]

  -- Over a readable database each lookup returns the user or group of the record that the database
  -- holds for the key, and `None` exactly if it holds none, or if the name has a zero byte. The
  -- world does not change.
  pub lookups_read :
      (id : ℕ) (name : OsString)
      → (get_user_by_uid L id w ≡ (ret (Option.map R.user (D.user_by_uid w id)), w))
        × (get_group_by_gid L id w ≡ (ret (Option.map R.group (D.group_by_gid w id)), w))
        × (get_user_by_name L name w ≡ (
          ret (
              if has_nul name then none else Option.map R.user (D.user_by_name w (name ++ 0 ∷ []))),
          w,
        ))
        × (get_group_by_name L name w ≡ (
          ret (
              if has_nul name
              then none
              else Option.map R.group (D.group_by_name w (name ++ 0 ∷ []))),
          w,
        ))
  lookups_read id name =
      (reads_user_at id, reads_group_at id, reads_user_named name, reads_group_named name)

  -- The four lookups of a readable database, as functions.
  abbrev pub database_directory : Directory L w
  database_directory = record {
    user_by_uid = user_at;
    user_by_name = user_named;
    group_by_gid = group_at;
    group_by_name = group_named;
    reads_uid = reads_user_at;
    reads_name = reads_user_named;
    reads_gid = reads_group_at;
    reads_groupname = reads_group_named;
  }
