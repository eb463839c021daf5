-- ===== src/Ratelimit/Mounts.antt =====
-- lib/src/ratelimit.c: `get_cgroup2_mount`, `get_bpffs_mount` and `open_cgroup_fd`. The functions
-- return the text that the C code writes to its buffer, or `none` for -1.
pub mod Held
pub mod Returns
pub mod Kept
use pidnl.Base.{
  ℕ, ℤ, negsuc, Text, text_eq, codes, List, [], ◌∷◌, ◌++◌, Option, none, some, Bool, true, false,
  not, if◌then◌else◌, snprintf, arith,
}
use pidnl.System.{M, pure, ◌>>=◌, ◌>>◌, call, Call, FsType, cgroup2_super, bpf_fs}
use pidnl.Ratelimit.Names.{path_max, walk_controller, slash}

is_cgroup2 : Option FsType → Bool
is_cgroup2 (some cgroup2_super) = true
is_cgroup2 _ = false

is_bpffs : Option FsType → Bool
is_bpffs (some bpf_fs) = true
is_bpffs _ = false

unfoldable pub get_cgroup2_mount : ℕ → M (Option Text)
unfolding is_cgroup2
get_cgroup2_mount size = do
  mount ← call (Call.cgroup_get_subsys_mount_point walk_controller)
  elim mount [
    | none ↦ pure none
    | some (p, mount_point) ↦ do
      fs ← call (Call.statfs mount_point)
      call (Call.free p)
      pure (if is_cgroup2 fs then some (snprintf size mount_point) else none)
  ]

-- The `while` over the entries; a mount that is no bpffs is passed over.
find_bpffs : ℕ → List (Text × Text) → M (Option Text)
unfolding is_bpffs
find_bpffs size [] = pure none
find_bpffs size ((kind, dir) ∷ entries) =
    let next = find_bpffs size entries in
    if not (text_eq kind (codes "bpf")) then next else do
      fs ← call (Call.statfs dir)
      if is_bpffs fs then pure (some (snprintf size dir)) else next

unfoldable pub get_bpffs_mount : ℕ → M (Option Text)
unfolding find_bpffs
get_bpffs_mount size = do
  mounts ← call Call.open_mounts
  elim mounts [
    | none ↦ pure none
    | some (f, entries) ↦ do found ← find_bpffs size entries; call (Call.fclose f); pure found
  ]

unfoldable pub open_cgroup_fd : Text → M ℤ
open_cgroup_fd name = do
  mount ← get_cgroup2_mount path_max
  elim mount [
    | none ↦ pure (negsuc 0)
    | some root ↦ call (Call.open_file (snprintf path_max (root ++ (slash ++ name))))
  ]
