-- ===== src/Ratelimit/Mounts/Returns.antt =====
-- lib/src/ratelimit.c: the outcome of the searches for mounts and `open_cgroup_fd`.
use pidnl.Base.{ℕ, negsuc, Text, text_eq, codes, List, [], ◌∷◌, none, some, not, arith}
use pidnl.System.{call, Call}
use pidnl.System.Returns.{Condition, Returns, bind-Returns, if-Returns, pure-Returns, call-Returns}
use pidnl.Ratelimit.Names.{path_max}
use pidnl.Ratelimit.Mounts.{
  is_bpffs, get_cgroup2_mount, find_bpffs, get_bpffs_mount, open_cgroup_fd,
}

pub get_cgroup2_mount-Returns : (P : Condition) (size : ℕ) → Returns P (get_cgroup2_mount size)
unfolding get_cgroup2_mount call
get_cgroup2_mount-Returns P size = record { apply = λ p h. ground arith }

find_bpffs-Returns :
    (P : Condition) (size : ℕ) (entries : List (Text × Text)) → Returns P (find_bpffs size entries)
unfolding find_bpffs
find_bpffs-Returns P size [] = pure-Returns P none
find_bpffs-Returns P size ((kind, dir) ∷ entries) =
    let next = find_bpffs-Returns P size entries in
    if-Returns P (not (text_eq kind (codes "bpf"))) (λ _. next)
      λ _.
        bind-Returns P (call-Returns P (Call.statfs dir))
          λ fs. if-Returns P (is_bpffs fs) (λ _. pure-Returns P _) (λ _. next)

pub get_bpffs_mount-Returns : (P : Condition) (size : ℕ) → Returns P (get_bpffs_mount size)
unfolding get_bpffs_mount
get_bpffs_mount-Returns P size = bind-Returns P (call-Returns P Call.open_mounts) (elim [
  | none ↦ pure-Returns P none
  | some (f, entries) ↦
      bind-Returns P (find_bpffs-Returns P size entries)
        λ found. bind-Returns P (call-Returns P (Call.fclose f)) λ _. pure-Returns P found
])

pub open_cgroup_fd-Returns : (P : Condition) (name : Text) → Returns P (open_cgroup_fd name)
unfolding open_cgroup_fd
open_cgroup_fd-Returns P name =
    bind-Returns P (get_cgroup2_mount-Returns P path_max)
      (elim [ none ↦ pure-Returns P (negsuc 0) | some root ↦ (call-Returns P (Call.open_file _)) ])
