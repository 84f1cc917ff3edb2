-- ===== src/Base/Logging/Counts.antt =====
-- How many lookups `group_access_list` logs.
use rust_users.Prelude.{
  ℕ, suc, ◌+◌, ◌≤◌, ◌≡◌, refl, List, [], ◌∷◌, ◌++◌, length, length-append, drop, arith,
}
use rust_users.Std.Exec.{ret, ok}
use rust_users.Libc.{Libc}
use rust_users.Libc.Lists.{GroupCalls}
use rust_users.Base.Types.{Group}
use rust_users.Base.Directory.{Directory}
use rust_users.Base.GroupLists.{buffer, buffer_size, keep, dedup_by_key}
use rust_users.Base.GroupLists.Collect.{length-buffer}
use rust_users.Base.Logging.{Message, collect, get_group_by_gid, group_access_list}
use rust_users.Base.Logging.Messages.{after_group, get_group_by_gid_logs}

-- The number of lookups of a group by its ID that are logged.
pub lookups : List Message → ℕ
lookups [] = 0
lookups (Message.running_getgrgid_r gid ∷ log) = suc (lookups log)
lookups (line ∷ log) = lookups log

module _ (L : Libc) (w : L.World) (D : Directory L w) where
  lookups-after :
      (gid : ℕ) (log : List Message) → lookups (after_group L w D gid log) ≡ suc (lookups log)
  unfolding lookups
  lookups-after gid log = ground arith

  collect_lem :
      (gids : List ℕ) (log : List Message)
      → (groups : List Group) × (log' : List Message) × (collect (get_group_by_gid L) gids (log, w)
          ≡ (ret groups, (log', w)))
        × (lookups log' ≡ length gids + lookups log)
  unfolding collect
  collect_lem [] log = ([], log, refl, omega arith)
  collect_lem (gid ∷ gids) log =
      let (groups, log', p, q) = collect_lem gids (after_group L w D gid log) in
      (
        keep (D.group_by_gid gid) groups,
        log',
        ground (arith, get_group_by_gid_logs L w D gid log),
        omega (arith, lookups-after gid log),
      )

  -- Over a directory that holds still, with an access list that fits the buffer,
  -- `group_access_list` succeeds and logs one lookup of a group for each of the 1024 places of the
  -- buffer, however few groups the process has.
  pub group_access_list_logs :
      (G : GroupCalls L) (log : List Message)
      → length (G.access w) ≤ buffer_size
      → (groups : List Group) × (log' : List Message) × (group_access_list L (log, w)
          ≡ (ret (ok groups), (log', w)))
        × (lookups log' ≡ 1024 + lookups log)
  unfolding group_access_list lookups
  group_access_list_logs G log fits =
      let ids = G.access w in
      let buff = ids ++ drop (length ids) buffer in
      let (groups, log', p, q) = collect_lem buff (Message.running_getgroups ∷ log) in
      (
        dedup_by_key (λ g. g.gid) groups,
        log',
        ground (arith, G.getgroups_writes buffer_size buffer w fits),
        omega (arith, length-append ids (drop (length ids) buffer), length-buffer (length ids)),
      )
