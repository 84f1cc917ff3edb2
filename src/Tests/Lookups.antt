-- ===== src/Tests/Lookups.antt =====
-- base.rs on the small system.
use mathlib.Core.Option
use rust_users.Prelude.{
  ℕ, ◌≡◌, ◌≢◌, ◌↔◌, refl, none, some, List, [], ◌∷◌, codes, arith, replicate, nat_eq, if◌then◌else◌,
}
use rust_users.Std.Exec.{diverges, ret, stop, capacity_overflow, ok}
use rust_users.Std.Ffi.{has_nul}
use rust_users.Libc.{Libc, ResultPtr, erange}
use rust_users.Base.Types.{Group, user_name_of, primary_group_id, group_id}
use rust_users.Base.Lookup.Results.{lookups-ne-diverges, lookups_never_enough}
use rust_users.Base.Lookup.{get_user_by_uid, get_user_by_name, get_group_by_gid, get_group_by_name}
use rust_users.Base.Raw.{passwd_to_user}
use rust_users.Base.GroupLists.{group_access_list, get_user_groups}
use rust_users.Base.GroupLists.Dedup.{NoRepeats, HasKey}
use rust_users.Base.GroupLists.Results.{InBuffer, group_access_list_lem, get_user_groups_lem}
use rust_users.Prelude.{ltb, false, true, ◌==◌}
use rust_users.Prelude.Int.{pos, negsuc}
use rust_users.Std.Exec.{bind}
use rust_users.Libc.{Reply, Passwd}
use rust_users.Base.Types
use rust_users.Base.Raw.{passwd_to_user}
use rust_users.Base.Lookup.{fetch}
use rust_users.Base.Lookup.Restrict.{restrict}
use rust_users.Base.Lookup.Sizes.{size, fetch_sizes}
use rust_users.Base.Bsd
use rust_users.Base.Bsd.{BsdPasswd}
use rust_users.Base.Bsd.Forget.{forget, common_of, bsd_agrees}
use rust_users.Base.Ext.{
  Setting, home_dir_to, shell_to, linux_user, bsd_user, group_ext, configure, add_members,
}
use rust_users.Base.Ext.Chains
use rust_users.Base.Ext.Chains.{Field, read, dummy, last_given, extensions_set}
use rust_users.Base.Debug.{fmt_user, fmt_group}
use rust_users.Base.Debug.Read.{read_text, read_user, read_group, debug_reads_back}
use rust_users.Tests.System.{
  Machine, toy, toy_database, toy_groups, as_root, as_fred, fred_passwd, root_passwd, root_struct,
}
use rust_users.Base.Directory.Build.{lookups_read}
use rust_users.Tests.Readable.{toy_readable, fred, fred_group, toy_directory}
use rust_users.Tests.Unique.{toy_unique}

lookups-ne-diverges_example :
    ((get_user_by_uid toy 0 as_root).0 ≢ diverges)
    × ((get_user_by_name toy (codes "fred") as_root).0 ≢ diverges)
    × ((get_group_by_gid toy 0 as_root).0 ≢ diverges)
    × ((get_group_by_name toy (codes "fred") as_root).0 ≢ diverges)
lookups-ne-diverges_example = lookups-ne-diverges toy 0 (codes "fred") as_root

-- A C library that calls every buffer too small.
abbrev greedy : Libc
greedy = record toy {
  getpwuid_r =
      λ uid len w. (record { code = erange; result = ResultPtr.null; struct = root_passwd }, w);
  getgrgid_r =
      λ gid len w. (record { code = erange; result = ResultPtr.null; struct = root_struct }, w);
}

lookups_never_enough_example :
    ((get_user_by_uid greedy 7 as_root).0 ≡ stop capacity_overflow)
    × ((get_group_by_gid greedy 7 as_root).0 ≡ stop capacity_overflow)
lookups_never_enough_example = lookups_never_enough greedy 7 as_root (λ n v. refl) (λ n v. refl)

group_access_list_lem_example :
    (groups : List Group) × (group_access_list toy as_fred ≡ (ret (ok groups), as_fred))
    × NoRepeats (λ (g : Group). g.gid) groups
    × ((j : ℕ)
        → HasKey (λ (g : Group). g.gid) j groups
          ↔ (InBuffer j (1337 ∷ []) × ((toy_directory as_fred).group_by_gid j ≢ none)))
group_access_list_lem_example =
    group_access_list_lem toy toy_groups as_fred (toy_directory as_fred)
      (toy_unique as_fred).group_own (omega arith)

get_user_groups_lem_example :
    (groups : List Group) × (get_user_groups toy (codes "fred") 1337 as_root
      ≡ (ret (some groups), as_root))
    × ((j : ℕ)
        → HasKey (λ (g : Group). g.gid) j groups
          ↔ (InBuffer j (1337 ∷ 0 ∷ 1337 ∷ []) × ((toy_directory as_root).group_by_gid j ≢ none)))
unfolding has_nul
get_user_groups_lem_example =
    get_user_groups_lem toy toy_groups as_root (toy_directory as_root) (codes "fred") 1337
      (toy_unique as_root).group_own (ground arith) (omega arith)

-- A process in more groups than the buffer holds.
abbrev crowded : Machine
crowded = record as_root { access = replicate 1025 7 }

lookups_read_example :
    (get_user_by_uid toy 1337 as_root ≡ (ret (some fred), as_root))
    × (get_group_by_gid toy 1337 as_root ≡ (ret (some fred_group), as_root))
    × (get_user_by_name toy (0 ∷ []) as_root ≡ (ret none, as_root))
    × (get_group_by_name toy (0 ∷ []) as_root ≡ (ret none, as_root))
unfolding nat_eq has_nul
lookups_read_example = lookups_read toy toy_database as_root (toy_readable as_root) 1337 (0 ∷ [])

-- The small system, where a call with another length than a lookup passes makes no sense.
abbrev odd_query : ℕ → Machine → Reply Passwd × Machine
odd_query len w =
    if len == 5
    then (record { code = 0; result = ResultPtr.other; struct = root_passwd }, w)
    else toy.getpwuid_r 1337 len w

odd_query-size : (k : ℕ) (v : Machine) → toy.getpwuid_r 1337 (size k) v ≡ odd_query (size k) v
odd_query-size k v = let ne : size k ≢ 5 = omega arith in ground (arith, ne)

fetch_sizes_example :
    fetch (toy.getpwuid_r 1337) passwd_to_user as_fred ≡ fetch odd_query passwd_to_user as_fred
fetch_sizes_example =
    fetch_sizes (toy.getpwuid_r 1337) odd_query (λ k h v. odd_query-size k v) passwd_to_user as_fred

abbrev change : BsdPasswd
change = record { common = fred_passwd; pw_change = pos 7; pw_expire = negsuc 0 }

abbrev settings : List Setting
settings = shell_to (codes "/bin/zsh") ∷ home_dir_to (codes "/") ∷ []

abbrev bsd_fred : Bsd.User
bsd_fred = record {
  uid = 1337;
  primary_group = 1337;
  extras = record { extras = fred.extras; change = pos 7; expire = negsuc 0 };
  name_arc = codes "fred";
}

-- A BSD that has fred only, and needs 4096 bytes for him.
abbrev bsd_query : ℕ → Machine → Reply BsdPasswd × Machine
bsd_query len w =
    if ltb len 4096
    then (record { code = erange; result = ResultPtr.null; struct = change }, w)
    else (record { code = 0; result = ResultPtr.input; struct = change }, w)

bsd_agrees_example :
    (let (found, w') = fetch bsd_query Bsd.passwd_to_user as_fred in
      fetch (restrict common_of bsd_query) passwd_to_user as_fred
      ≡ (bind found (λ v. ret (Option.map forget v)), w'))
    × (forget (configure settings (Bsd.new_user 7 (codes "jane") 8))
        ≡ configure settings (Types.new_user 7 (codes "jane") 8))
    × (Bsd.home_dir (configure settings bsd_fred) ≡ Types.home_dir (configure settings fred))
    × (Bsd.shell (configure settings bsd_fred) ≡ Types.shell (configure settings fred))
    × (Bsd.password (configure settings bsd_fred) ≡ Types.password (configure settings fred))
    × (Bsd.password_change_time (configure settings bsd_fred) ≡ Bsd.password_change_time bsd_fred)
    × (Bsd.password_expire_time (configure settings bsd_fred) ≡ Bsd.password_expire_time bsd_fred)
bsd_agrees_example = bsd_agrees bsd_query as_fred 7 (codes "jane") 8 settings bsd_fred

debug_reads_back_example :
    (read_text (fmt_user (λ s. s) false fred) ≡ some (codes "User", 1337, codes "fred"))
    × (read_text (fmt_group (λ s. s) false fred_group) ≡ some (codes "Group", 1337, codes "fred"))
    × (read_user (fmt_user (λ s. s) true fred) ≡ some fred)
    × (read_group (fmt_group (λ s. s) true fred_group) ≡ some fred_group)
debug_reads_back_example = debug_reads_back (λ s. s) fred fred_group

extensions_set_example :
    (let u = configure settings (Types.new_user 7 (codes "jane") 8) in
      (read Chains.shell u ≡ Option.get_or (last_given Chains.shell settings) (dummy Chains.shell))
      × (Types.user_id u ≡ 7)
      × (Types.user_name_of u ≡ codes "jane")
      × (Types.primary_group_id u ≡ 8))
    × (let u = configure settings (Bsd.new_user 7 (codes "jane") 8) in
        (read Chains.shell u
          ≡ Option.get_or (last_given Chains.shell settings) (dummy Chains.shell))
        × (u.uid ≡ 7)
        × (u.name_arc ≡ codes "jane")
        × (u.primary_group ≡ 8)
        × (Bsd.password_change_time u ≡ pos 0)
        × (Bsd.password_expire_time u ≡ pos 0))
    × (let g = add_members (codes "jim" ∷ codes "al" ∷ []) (Types.new_group 8 (codes "jane")) in
        (Types.members_of g ≡ codes "jim" ∷ codes "al" ∷ [])
        × (Types.group_id g ≡ 8)
        × (Types.group_name_of g ≡ codes "jane"))
extensions_set_example =
    extensions_set Chains.shell settings 7 (codes "jane") 8 (codes "jim" ∷ codes "al" ∷ [])
