-- ===== src/Ratelimit/Cgroups.antt =====
-- lib/src/ratelimit.c: `create_cgroup`, `create_pin_dir`, `detach_pinned_links`, `delete_cgroup`.
pub mod Held
pub mod Returns
pub mod Kept
use pidnl.Base.{
  ℕ, ℤ, is_neg, Text, codes, List, [], ◌∷◌, ◌++◌, Option, none, some, Bool, true, false,
  if◌then◌else◌, decimal_int, snprintf,
}
use pidnl.System.{M, pure, ◌>>=◌, ◌>>◌, call, Call, Errno, eexist, created, ecgother, libcg_failed}
use pidnl.Ratelimit.Names.{path_max, cgroup_name, slash}
use pidnl.Ratelimit.Codes.{libcg_create, no_bpffs, bpf_pin, Fallible, failure, success}
use pidnl.Ratelimit.Mounts.{get_bpffs_mount}

is_eexist : Errno → Bool
is_eexist eexist = true
is_eexist _ = false

give_up : ℕ → M (Fallible ℕ)
give_up cg = do call (Call.cgroup_free cg); pure (failure libcg_create)

unfoldable pub create_cgroup : Text → M (Fallible ℕ)
unfolding is_eexist give_up
create_cgroup name = do
  new ← call (Call.cgroup_new_cgroup name)
  elim new [
    | none ↦ pure (failure libcg_create)
    | some cg ↦ do
      ret ← call (Call.cgroup_create_cgroup cg)
      elim ret [
        | created ↦ pure (success cg)
        | ecgother ↦ do
          errno ← call Call.cgroup_get_last_errno
          if is_eexist errno then pure (success cg) else give_up cg
        | libcg_failed ↦ give_up cg
      ]
  ]

abbrev pub base_dir : Text → Text
base_dir root = snprintf path_max (root ++ (slash ++ cgroup_name))

-- `mkdir(path, 0700) != 0 && errno != EEXIST`
mkdir_fails : Text → M Bool
unfolding is_eexist
mkdir_fails path = do
  errno ← call (Call.mkdir path)
  pure (elim errno [ none ↦ false | some e ↦ if is_eexist e then false else true ])

-- Hands out the directory's path, printed into a buffer of `size` bytes.
unfoldable pub create_pin_dir : ℤ → ℕ → M (Fallible Text)
unfolding mkdir_fails
create_pin_dir pid size = do
  mount ← get_bpffs_mount path_max
  elim mount [
    | none ↦ pure (failure no_bpffs)
    | some root ↦ do
      let pin_dir = snprintf size (base_dir root ++ (slash ++ decimal_int pid))
      base_failed ← mkdir_fails (base_dir root)
      if base_failed then pure (failure bpf_pin) else do
        failed ← mkdir_fails pin_dir
        pure (if failed then failure bpf_pin else success pin_dir)
  ]

abbrev pub egress_pin_name : Text
egress_pin_name = codes "egress"

abbrev pub ingress_pin_name : Text
ingress_pin_name = codes "ingress"

abbrev pub pid_dir : Text → ℤ → Text
pid_dir root pid = root ++ (slash ++ (cgroup_name ++ (slash ++ decimal_int pid)))

detach_link : Text → M (Unit {0})
detach_link path = do
  fd ← call (Call.bpf_obj_get path)
  if is_neg fd then pure tt else do call (Call.bpf_link_detach fd); call (Call.close fd)
  call (Call.unlink path)

detach_links : Text → ℤ → List Text → M (Unit {0})
unfolding detach_link
detach_links root pid [] = pure tt
detach_links root pid (name ∷ names) = do
  detach_link (snprintf path_max (pid_dir root pid ++ (slash ++ name)))
  detach_links root pid names

unfoldable pub detach_pinned_links : ℤ → M (Unit {0})
unfolding detach_links
detach_pinned_links pid = do
  mount ← get_bpffs_mount path_max
  elim mount [
    | none ↦ pure tt
    | some root ↦ do
      detach_links root pid (egress_pin_name ∷ ingress_pin_name ∷ [])
      call (Call.rmdir (snprintf path_max (pid_dir root pid)))
  ]

delete_group : Option ℕ → M (Unit {0})
delete_group none = pure tt
delete_group (some cg) = do call (Call.cgroup_delete_cgroup cg); call (Call.cgroup_free cg)

unfoldable pub delete_cgroup : Option ℕ → ℤ → ℤ → M (Unit {0})
unfolding delete_group
delete_cgroup cg cgroup_fd pid = do
  if is_neg cgroup_fd then pure tt else do detach_pinned_links pid; call (Call.close cgroup_fd)
  delete_group cg
