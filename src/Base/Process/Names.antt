-- ===== src/Base/Process/Names.antt =====
-- The functions of base.rs that return the names of the process.
use rust_users.Prelude.{◌≡◌, arith}
use mathlib.Core.Option
use rust_users.Std.Exec.{ret}
use rust_users.Libc.{Libc}
use rust_users.Base.Types.{User, Group}
use rust_users.Base.Directory.{Directory}
use rust_users.Base.Process.{
  get_current_username, get_effective_username, get_current_groupname, get_effective_groupname,
}

-- Over a directory, each name is that of the user or group that the directory holds for the real or
-- the effective ID of the process, and is missing if it holds none. The world stays as it is.
pub names_lem :
    (L : Libc) (w : L.World) (D : Directory L w)
    → (get_current_username L w
        ≡ (ret (Option.map (λ (u : User). u.name_arc) (D.user_by_uid (L.getuid w))), w))
      × (get_effective_username L w
          ≡ (ret (Option.map (λ (u : User). u.name_arc) (D.user_by_uid (L.geteuid w))), w))
      × (get_current_groupname L w
          ≡ (ret (Option.map (λ (g : Group). g.name_arc) (D.group_by_gid (L.getgid w))), w))
      × (get_effective_groupname L w
          ≡ (ret (Option.map (λ (g : Group). g.name_arc) (D.group_by_gid (L.getegid w))), w))
unfolding get_current_username get_effective_username get_current_groupname get_effective_groupname
names_lem L w D = ground (
  arith,
  D.reads_uid (L.getuid w),
  D.reads_uid (L.geteuid w),
  D.reads_gid (L.getgid w),
  D.reads_gid (L.getegid w),
)
