-- ===== src/Base/Logging/Messages.antt =====
-- Which lines the functions log, over a database that holds still.
use rust_users.Prelude.{ℕ, ◌≡◌, refl, ◌∙◌, Option, none, some, List, ◌∷◌, arith}
use rust_users.Std.Exec.{Exec, Outcome, ret, stop, diverges, continue}
use rust_users.Libc.{Libc, Passwd, CGroup, Reply, ResultPtr}
use rust_users.Base.Types.{User, Group}
use rust_users.Base.Raw
use rust_users.Base.Directory.{Directory}
use rust_users.Base.Lookup.{retry, fuel, initial_size}
use rust_users.Base.Logging.{
  Message, Logged, passwd_to_user, struct_to_group, convert, fetch, get_user_by_uid,
  get_group_by_gid,
}
use rust_users.Base.Logging.Silent.{erase, get_user_by_uid-IsSilent, get_group_by_gid-IsSilent}

-- The log after a lookup: the line about the call, and one about what is found.
abbrev after_lookup :
    {A : Type 0} → (A → Message) → Message → Option A → List Message → List Message
after_lookup loading running none log = running ∷ log
after_lookup loading running (some a) log = loading a ∷ running ∷ log

-- The same for a result, if there is one.
abbrev Shows :
    {A W : Type 0} → (A → Message) → Message → List Message → Outcome (Option A) × Logged W → Type 0
Shows loading running log (ret found, (log', w)) = log' ≡ after_lookup loading running found log
Shows loading running log (r, s) = Unit {0}

module _ {W C A : Type 0} (to : C → Exec (Logged W) A) (loading : A → Message)
    (loads : (c : C) (log : List Message) (w : W) (a : A)
      → (to c (log, w)).0 ≡ ret a
      → (to c (log, w)).1.0 ≡ loading a ∷ log) where
  loaded-Shows :
      (running : Message) (log : List Message) (c : C) (w : W) (r : Outcome A) (s : Logged W)
      → to c (running ∷ log, w) ≡ (r, s)
      → Shows loading running log (continue r s (λ a. λ t. (ret (some a), t)))
  loaded-Shows running log c w (ret a) (log', w') e = ground (arith, loads c (running ∷ log) w a)
  loaded-Shows running log c w (stop f) s e = tt
  loaded-Shows running log c w diverges s e = tt

  converted-Shows :
      (running : Message) (log : List Message) (r : Outcome (Option (Reply C))) (w : W)
      → Shows loading running log (continue r (running ∷ log, w) (convert to))
  unfolding convert
  converted-Shows running log (ret none) w = refl
  converted-Shows running log (ret (some reply)) w = found reply.result refl
    where
      found :
          (result : ResultPtr)
          → reply.result ≡ result
          → Shows loading running log (convert to (some reply) (running ∷ log, w))
      found ResultPtr.null e = rw e refl
      found ResultPtr.other e = rw e refl
      found ResultPtr.input e =
          let (r, s) = to reply.struct (running ∷ log, w) in
          rw e (loaded-Shows running log reply.struct w r s refl)
  converted-Shows running log (stop f) w = tt
  converted-Shows running log diverges w = tt

  fetch-Shows :
      (running : Message) (query : ℕ → W → Reply C × W) (log : List Message) (w : W)
      → Shows loading running log (fetch running query to (log, w))
  unfolding fetch
  fetch-Shows running query log w =
      let (r, w') = retry query fuel initial_size w in converted-Shows running log r w'

user_loads :
    {W : Type 0} (p : Passwd) (log : List Message) (w : W) (u : User)
    → (passwd_to_user p (log, w)).0 ≡ ret u
    → (passwd_to_user p (log, w)).1.0 ≡ Message.loading_user u.uid ∷ log
unfolding passwd_to_user Raw.passwd_to_user
user_loads p log w u e = ground arith

group_loads :
    {W : Type 0} (c : CGroup) (log : List Message) (w : W) (g : Group)
    → (struct_to_group c (log, w)).0 ≡ ret g
    → (struct_to_group c (log, w)).1.0 ≡ Message.loading_group g.gid ∷ log
unfolding struct_to_group Raw.struct_to_group
group_loads c log w g e = ground arith

-- A result that is known, and that shows in the log.
shown :
    {A W : Type 0} (loading : A → Message) (running : Message) (log : List Message)
    (q : Outcome (Option A) × Logged W) (o : Option A) (w : W)
    → erase q ≡ (ret o, w)
    → Shows loading running log q
    → q ≡ (ret o, (after_lookup loading running o log, w))
shown loading running log (ret found, (log', w')) o w e h = ground arith
shown loading running log (stop f, s) o w e h = absurd (cc)
shown loading running log (diverges, s) o w e h = absurd (cc)

module _ (L : Libc) (w : L.World) (D : Directory L w) where
  -- Over a directory that holds still, a lookup of a user logs one line about the call, however
  -- often the call is repeated with a larger buffer, and after it a line with the user's ID exactly
  -- when there is such a user.
  get_user_by_uid_logs :
      (uid : ℕ) (log : List Message)
      → get_user_by_uid L uid (log, w) ≡ (
        ret (D.user_by_uid uid),
        (
          after_lookup
              (λ u. Message.loading_user u.uid)
              (Message.running_getpwuid_r uid)
              (D.user_by_uid uid)
              log,
          w,
        ),
      )
  get_user_by_uid_logs uid log =
      shown (λ u. Message.loading_user u.uid) (Message.running_getpwuid_r uid) log
        (get_user_by_uid L uid (log, w)) (D.user_by_uid uid) w
        (get_user_by_uid-IsSilent L uid log w ∙ D.reads_uid uid)
        (unfold get_user_by_uid in
          fetch-Shows passwd_to_user (λ u. Message.loading_user u.uid)
            (λ c log v a. user_loads c log v a) (Message.running_getpwuid_r uid) (L.getpwuid_r uid)
            log w)

  abbrev pub after_group : ℕ → List Message → List Message
  after_group gid log =
      after_lookup (λ (g : Group). Message.loading_group g.gid) (Message.running_getgrgid_r gid)
        (D.group_by_gid gid) log

  pub get_group_by_gid_logs :
      (gid : ℕ) (log : List Message)
      → get_group_by_gid L gid (log, w) ≡ (ret (D.group_by_gid gid), (after_group gid log, w))
  get_group_by_gid_logs gid log =
      shown (λ g. Message.loading_group g.gid) (Message.running_getgrgid_r gid) log
        (get_group_by_gid L gid (log, w)) (D.group_by_gid gid) w
        (get_group_by_gid-IsSilent L gid log w ∙ D.reads_gid gid)
        (unfold get_group_by_gid in
          fetch-Shows struct_to_group (λ g. Message.loading_group g.gid)
            (λ c log v a. group_loads c log v a) (Message.running_getgrgid_r gid) (L.getgrgid_r gid)
            log w)
