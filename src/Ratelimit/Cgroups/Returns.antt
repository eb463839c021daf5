-- ===== src/Ratelimit/Cgroups/Returns.antt =====
-- lib/src/ratelimit.c: the outcome of the operations on groups and pins.
use pidnl.Base.{ℕ, ℤ, pos, negsuc, Text, List, [], ◌∷◌, Option, none, some, arith, snprintf}
use pidnl.System.{◌>>=◌, call, Call}
use pidnl.System.Returns.{Condition, Returns, bind-Returns, if-Returns, pure-Returns, call-Returns}
use pidnl.Ratelimit.Names.{path_max}
use pidnl.Ratelimit.Mounts.Returns.{get_bpffs_mount-Returns}
use pidnl.Ratelimit.Cgroups.{
  create_cgroup, create_pin_dir, mkdir_fails, detach_link, detach_links, detach_pinned_links,
  delete_group, delete_cgroup, pid_dir, base_dir, egress_pin_name, ingress_pin_name,
}

module _ (P : Condition) where
  pub create_cgroup-Returns : (name : Text) → Returns P (create_cgroup name)
  unfolding create_cgroup call
  create_cgroup-Returns name = record { apply = λ p h. ground arith }

  mkdir_fails-Returns : (path : Text) → Returns P (mkdir_fails path)
  unfolding mkdir_fails call
  mkdir_fails-Returns path = record { apply = λ p h. ground arith }

  pub create_pin_dir-Returns : (pid : ℤ) (size : ℕ) → Returns P (create_pin_dir pid size)
  unfolding create_pin_dir
  create_pin_dir-Returns pid size = bind-Returns P (get_bpffs_mount-Returns P path_max) (elim [
    | none ↦ pure-Returns P _
    | some root ↦ bind-Returns P (mkdir_fails-Returns (base_dir root)) λ base_failed.
        if-Returns P base_failed (λ _. pure-Returns P _)
          λ _. bind-Returns P (mkdir_fails-Returns _) λ failed. pure-Returns P _
  ])

  detach_link-Returns : (path : Text) → Returns P (detach_link path)
  unfolding detach_link call
  detach_link-Returns path = record { apply = λ p h. ground arith }

  detach_links-Returns :
      (root : Text) (pid : ℤ) (names : List Text) → Returns P (detach_links root pid names)
  unfolding detach_links
  detach_links-Returns root pid [] = pure-Returns P tt
  detach_links-Returns root pid (name ∷ names) =
      bind-Returns P (detach_link-Returns _) λ _. detach_links-Returns root pid names

  pub detach_pinned_links-Returns : (pid : ℤ) → Returns P (detach_pinned_links pid)
  unfolding detach_pinned_links
  detach_pinned_links-Returns pid = bind-Returns P (get_bpffs_mount-Returns P path_max) (elim [
    | none ↦ pure-Returns P tt
    | some root ↦
        bind-Returns P (detach_links-Returns root pid (egress_pin_name ∷ ingress_pin_name ∷ []))
          λ _. (call-Returns P (Call.rmdir (snprintf path_max (pid_dir root pid))))
  ])

  delete_group-Returns : (cg : Option ℕ) → Returns P (delete_group cg)
  unfolding delete_group call
  delete_group-Returns none = pure-Returns P tt
  delete_group-Returns (some cg) = record { apply = λ p h. ground arith }

  detach_and_close :
      (fd : ℕ) (pid : ℤ) → Returns P (detach_pinned_links pid >>= (λ _. call (Call.close (pos fd))))
  detach_and_close fd pid =
      bind-Returns P (detach_pinned_links-Returns pid) λ _. (call-Returns P (Call.close (pos fd)))

  -- `delete_cgroup` takes over the handle and the descriptor.
  pub delete_cgroup-Returns :
      (cg : Option ℕ) (cgroup_fd pid : ℤ) → Returns P (delete_cgroup cg cgroup_fd pid)
  unfolding delete_cgroup
  delete_cgroup-Returns cg (pos fd) pid =
      bind-Returns P (detach_and_close fd pid) λ _. (delete_group-Returns cg)
  delete_cgroup-Returns cg (negsuc fd) pid =
      bind-Returns P (pure-Returns P tt) λ _. (delete_group-Returns cg)
