-- ===== src/Android/Linux.antt =====
-- Android against Linux.
use mathlib.Core.Option
use rust_users.Prelude.{ℕ, suc, ◌≡◌, refl, Option, none, some, List, arith}
use rust_users.Std.Exec.{Exec, Outcome, ret, stop, diverges, bind, continue}
use rust_users.Std.Ffi.{OsString, cstring_new}
use rust_users.Libc.{Libc, Passwd, Reply, ResultPtr}
use rust_users.Base.Types.{User, new_user}
use rust_users.Base.Raw
use rust_users.Base.Lookup
use rust_users.Base.Lookup.{retry, fetch, finish, fuel, initial_size}
use rust_users.Cache.{new}
use rust_users.Android
use rust_users.Android.{passwd_to_user}

-- What Android shows of a user.
abbrev pub plain : User → User
plain u = new_user u.uid u.name_arc u.primary_group

abbrev plainly : Outcome (Option User) → Outcome (Option User)
plainly r = bind r λ u. ret (Option.map plain u)

passwd_to_user-plain :
    (p : Passwd) (u : User) → Raw.passwd_to_user p ≡ ret u → passwd_to_user p ≡ ret (plain u)
unfolding Raw.passwd_to_user passwd_to_user new_user
passwd_to_user-plain p u e = ground arith

module _ {W : Type 0} where
  -- What follows the loop.
  finish-plain :
      (reply : Option (Reply Passwd)) (w : W) (o : Option User)
      → (finish Raw.passwd_to_user reply w).0 ≡ ret o
      → finish passwd_to_user reply w
        ≡ (ret (Option.map plain o), (finish Raw.passwd_to_user reply w).1)
  unfolding Lookup.convert
  finish-plain none w o e = ground arith
  finish-plain (some reply) w o e = converted reply.result refl
    where
      converted :
          (result : ResultPtr)
          → reply.result ≡ result
          → finish passwd_to_user (some reply) w
            ≡ (ret (Option.map plain o), (finish Raw.passwd_to_user (some reply) w).1)
      converted ResultPtr.null p = ground arith
      converted ResultPtr.other p = ground arith
      converted ResultPtr.input p = read (Raw.passwd_to_user reply.struct) refl
        where
          read :
              (r : Outcome User)
              → Raw.passwd_to_user reply.struct ≡ r
              → finish passwd_to_user (some reply) w
                ≡ (ret (Option.map plain o), (finish Raw.passwd_to_user (some reply) w).1)
          read (ret u) q = ground (arith, passwd_to_user-plain reply.struct u q)
          read (stop f) q = absurd (ground arith)
          read diverges q = absurd (ground arith)

  rest-plain :
      (r : Outcome (Option (Reply Passwd))) (w : W) (o : Option User)
      → (continue r w (finish Raw.passwd_to_user)).0 ≡ ret o
      → continue r w (finish passwd_to_user)
        ≡ (ret (Option.map plain o), (continue r w (finish Raw.passwd_to_user)).1)
  rest-plain (ret reply) w o e = finish-plain reply w o e
  rest-plain (stop f) w o e = absurd (cc)
  rest-plain diverges w o e = absurd (cc)

  fetch-plain :
      (query : ℕ → W → Reply Passwd × W) (w w' : W) (o : Option User)
      → fetch query Raw.passwd_to_user w ≡ (ret o, w')
      → fetch query passwd_to_user w ≡ (ret (Option.map plain o), w')
  unfolding fetch
  fetch-plain query w w' o e =
      let (r, v) = retry query fuel initial_size w in ground (arith, rest-plain r v o)

pub data Key : Type 0 where
  uid : ℕ → Key
  name : OsString → Key

module _ (L : Libc) where
  unfoldable pub on_linux : Key → Exec L.World (Option User)
  on_linux (uid i) = Lookup.get_user_by_uid L i
  on_linux (name n) = Lookup.get_user_by_name L n

  pub on_android : Key → Exec L.World (Option User)
  on_android (uid i) = Android.get_user_by_uid L i
  on_android (name n) = Android.get_user_by_name L n

  -- A lookup of a user that ends on Linux ends on Android too, in the same world, with the user that
  -- `User::new` makes of the ID, the name and the primary group.
  pub android_lookups :
      (key : Key) (w w' : L.World) (o : Option User)
      → on_linux key w ≡ (ret o, w')
      → on_android key w ≡ (ret (Option.map plain o), w')
  unfolding on_linux on_android Lookup.get_user_by_uid Android.get_user_by_uid
      Lookup.get_user_by_name Android.get_user_by_name
  android_lookups (uid i) w w' o e = fetch-plain (L.getpwuid_r i) w w' o e
  android_lookups (name n) w w' o e = named (cstring_new n) refl
    where
      named :
          (c : Option (List ℕ))
          → cstring_new n ≡ c
          → on_android (name n) w ≡ (ret (Option.map plain o), w')
      named none p = ground arith
      named (some c) p = ground (arith, fetch-plain (L.getpwnam_r c) w w' o)

module _ (L : Libc) {T : Type 0} (body : User → Exec (T × L.World) (Unit {0})) where
  -- On Android a loop over all users ends after one round without running its body and leaves the
  -- world as it is, and a cache that is made with all users is empty.
  android_lists_nobody :
      (rounds : ℕ) (t : T) (w : L.World)
      → (Android.for_users L body (suc rounds) (t, w) ≡ (ret tt, (t, w)))
        × (Android.with_all_users L (suc rounds) w ≡ (ret new, w))
  unfolding Android.for_users Android.iterate Android.next Android.all_users Android.drop_users
      Android.with_all_users
  android_lists_nobody rounds t w = (refl, refl)
