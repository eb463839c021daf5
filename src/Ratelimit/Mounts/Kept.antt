-- ===== src/Ratelimit/Mounts/Kept.antt =====
-- lib/src/ratelimit.c: the monitor's variables under the searches for mounts and `open_cgroup_fd`.
use pidnl.Base.{ℕ, negsuc, Text, text_eq, codes, List, [], ◌∷◌, ◌++◌, none, some, not, snprintf}
use pidnl.System.{Call}
use pidnl.System.Keeps.{Property, Keeps, bind-Keeps, if-Keeps, pure-Keeps, call-Keeps}
use pidnl.Ratelimit.Names.{path_max, slash, walk_controller}
use pidnl.Ratelimit.Mounts.{
  is_bpffs, get_cgroup2_mount, find_bpffs, get_bpffs_mount, open_cgroup_fd,
}

module _ (I : Property) where
  get_cgroup2_mount-Keeps : (size : ℕ) → Keeps I (get_cgroup2_mount size)
  unfolding get_cgroup2_mount
  get_cgroup2_mount-Keeps size =
      bind-Keeps I (call-Keeps I (Call.cgroup_get_subsys_mount_point walk_controller)) (elim [
        | none ↦ pure-Keeps I none
        | some (p, path) ↦
            bind-Keeps I (call-Keeps I (Call.statfs path))
              λ fs. bind-Keeps I (call-Keeps I (Call.free p)) λ _. pure-Keeps I _
      ])

  find_bpffs-Keeps : (size : ℕ) (entries : List (Text × Text)) → Keeps I (find_bpffs size entries)
  unfolding find_bpffs
  find_bpffs-Keeps size [] = pure-Keeps I none
  find_bpffs-Keeps size ((kind, dir) ∷ entries) =
      let next = find_bpffs-Keeps size entries in
      if-Keeps I (not (text_eq kind (codes "bpf"))) next (
        bind-Keeps I (call-Keeps I (Call.statfs dir))
          λ fs. if-Keeps I (is_bpffs fs) (pure-Keeps I _) next)

  pub get_bpffs_mount-Keeps : (size : ℕ) → Keeps I (get_bpffs_mount size)
  unfolding get_bpffs_mount
  get_bpffs_mount-Keeps size = bind-Keeps I (call-Keeps I Call.open_mounts) (elim [
    | none ↦ pure-Keeps I none
    | some (f, entries) ↦
        bind-Keeps I (find_bpffs-Keeps size entries)
          λ found. bind-Keeps I (call-Keeps I (Call.fclose f)) λ _. pure-Keeps I found
  ])

  pub open_cgroup_fd-Keeps : (name : Text) → Keeps I (open_cgroup_fd name)
  unfolding open_cgroup_fd
  open_cgroup_fd-Keeps name = bind-Keeps I (get_cgroup2_mount-Keeps path_max) (elim [
    | none ↦ pure-Keeps I (negsuc 0)
    | some root ↦ call-Keeps I (Call.open_file (snprintf path_max (root ++ (slash ++ name))))
  ])
