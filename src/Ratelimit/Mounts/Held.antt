-- ===== src/Ratelimit/Mounts/Held.antt =====
-- lib/src/ratelimit.c: the resources of the searches for mounts and `open_cgroup_fd`.
use pidnl.Base.{ℕ, negsuc, Text, text_eq, codes, List, [], ◌∷◌, none, some, not, arith}
use pidnl.System.{call, Call}
use pidnl.System.Ledger.{
  Resource, Uses, bind-Uses, last-Uses, if-Uses, pure-Uses, call-Uses, released, fd_tally,
}
use pidnl.Ratelimit.Names.{path_max}
use pidnl.Ratelimit.Mounts.{
  is_bpffs, get_cgroup2_mount, find_bpffs, get_bpffs_mount, open_cgroup_fd,
}

pub get_cgroup2_mount-Uses : (r : Resource) (size : ℕ) → Uses r 0 (get_cgroup2_mount size) (λ _. 0)
unfolding get_cgroup2_mount call
get_cgroup2_mount-Uses r size = record { apply = λ p. ground arith }

find_bpffs-Uses :
    (r : Resource) (size : ℕ) (entries : List (Text × Text))
    → Uses r 0 (find_bpffs size entries) (λ _. 0)
unfolding find_bpffs
find_bpffs-Uses r size [] = pure-Uses r none (omega arith)
find_bpffs-Uses r size ((kind, dir) ∷ entries) =
    let next = find_bpffs-Uses r size entries in
    if-Uses r (not (text_eq kind (codes "bpf"))) (λ _. next)
      λ _.
        bind-Uses r 0 (call-Uses r (Call.statfs dir)) (omega arith)
          λ fs. if-Uses r (is_bpffs fs) (λ _. pure-Uses r _ (omega arith)) (λ _. next)

pub get_bpffs_mount-Uses : (r : Resource) (size : ℕ) → Uses r 0 (get_bpffs_mount size) (λ _. 0)
unfolding get_bpffs_mount
get_bpffs_mount-Uses r size = bind-Uses r 0 (call-Uses r Call.open_mounts) (omega arith) (elim [
  | none ↦ pure-Uses r none (omega arith)
  | some (f, entries) ↦
      bind-Uses r (released r (Call.fclose f)) (find_bpffs-Uses r size entries) (omega arith)
        λ found.
          bind-Uses r 0 (call-Uses r (Call.fclose f)) (omega arith)
            λ _. pure-Uses r found (omega arith)
])

pub open_cgroup_fd-Uses : (r : Resource) (name : Text) → Uses r 0 (open_cgroup_fd name) (fd_tally r)
unfolding open_cgroup_fd
open_cgroup_fd-Uses r name = bind-Uses r 0 (get_cgroup2_mount-Uses r path_max) (omega arith) (elim [
  | none ↦ pure-Uses r (negsuc 0) (omega arith)
  | some root ↦ last-Uses r 0 (call-Uses r (Call.open_file _)) (omega arith) (λ a. omega arith)
])
