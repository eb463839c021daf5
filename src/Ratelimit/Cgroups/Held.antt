-- ===== src/Ratelimit/Cgroups/Held.antt =====
-- lib/src/ratelimit.c: the resources of the operations on groups and pins.
use pidnl.Base.{
  ℕ, ℤ, pos, negsuc, ◌+◌, refl, Text, List, [], ◌∷◌, Option, none, some, arith, snprintf,
}
use pidnl.System.{◌>>=◌, call, Call}
use pidnl.System.Ledger.{
  Resource, group, tally, Uses, bind-Uses, last-Uses, if-Uses, pure-Uses, call-Uses, fd_tally,
  opt_tally,
}
use pidnl.Ratelimit.Names.{path_max}
use pidnl.Ratelimit.Codes.{Fallible, failure, success}
use pidnl.Ratelimit.Mounts.Held.{get_bpffs_mount-Uses}
use pidnl.Ratelimit.Cgroups.{
  create_cgroup, create_pin_dir, mkdir_fails, detach_link, detach_links, detach_pinned_links,
  delete_group, delete_cgroup, pid_dir, base_dir, egress_pin_name, ingress_pin_name,
}

abbrev pub made_tally : Resource → Fallible ℕ → ℕ
made_tally r (failure code) = 0
made_tally r (success cg) = tally r (group cg)

module _ (r : Resource) where
  pub create_cgroup-Uses : (name : Text) → Uses r 0 (create_cgroup name) (made_tally r)
  unfolding create_cgroup call
  create_cgroup-Uses name = record { apply = λ p. ground arith }

  mkdir_fails-Uses : (path : Text) → Uses r 0 (mkdir_fails path) (λ _. 0)
  unfolding mkdir_fails call
  mkdir_fails-Uses path = record { apply = λ p. ground arith }

  pub create_pin_dir-Uses : (pid : ℤ) (size : ℕ) → Uses r 0 (create_pin_dir pid size) (λ _. 0)
  unfolding create_pin_dir
  create_pin_dir-Uses pid size =
      bind-Uses r 0 (get_bpffs_mount-Uses r path_max) (omega arith) (elim [
        | none ↦ pure-Uses r _ (omega arith)
        | some root ↦ bind-Uses r 0 (mkdir_fails-Uses (base_dir root)) (omega arith) λ base_failed.
            if-Uses r base_failed (λ _. pure-Uses r _ (omega arith))
              λ _.
                bind-Uses r 0 (mkdir_fails-Uses _) (omega arith)
                  λ failed. pure-Uses r _ (omega arith)
      ])

  detach_link-Uses : (path : Text) → Uses r 0 (detach_link path) (λ _. 0)
  unfolding detach_link call
  detach_link-Uses path = record { apply = λ p. ground arith }

  detach_links-Uses :
      (root : Text) (pid : ℤ) (names : List Text) → Uses r 0 (detach_links root pid names) (λ _. 0)
  unfolding detach_links
  detach_links-Uses root pid [] = pure-Uses r tt (omega arith)
  detach_links-Uses root pid (name ∷ names) =
      bind-Uses r 0 (detach_link-Uses _) (omega arith) λ _. detach_links-Uses root pid names

  pub detach_pinned_links-Uses : (pid : ℤ) → Uses r 0 (detach_pinned_links pid) (λ _. 0)
  unfolding detach_pinned_links
  detach_pinned_links-Uses pid =
      bind-Uses r 0 (get_bpffs_mount-Uses r path_max) (omega arith) (elim [
        | none ↦ pure-Uses r tt (omega arith)
        | some root ↦
            bind-Uses r 0 (detach_links-Uses root pid (egress_pin_name ∷ ingress_pin_name ∷ []))
              (omega arith)
              λ _.
                last-Uses r 0 (call-Uses r (Call.rmdir (snprintf path_max (pid_dir root pid))))
                  (omega arith) (λ a. omega arith)
      ])

  delete_group-Uses : (cg : Option ℕ) → Uses r (opt_tally r group cg) (delete_group cg) (λ _. 0)
  unfolding delete_group call
  delete_group-Uses none = pure-Uses r tt (omega arith)
  delete_group-Uses (some cg) = record { apply = λ p. omega arith }

  detach_and_close :
      (fd : ℕ) (pid : ℤ)
      → Uses r
          (fd_tally r (pos fd))
          (detach_pinned_links pid >>= (λ _. call (Call.close (pos fd))))
          (λ _. 0)
  detach_and_close fd pid =
      bind-Uses r (fd_tally r (pos fd)) (detach_pinned_links-Uses pid) (omega arith)
        λ _. last-Uses r 0 (call-Uses r (Call.close (pos fd))) (omega arith) (λ a. omega arith)

  -- `delete_cgroup` takes over the handle and the descriptor.
  pub delete_cgroup-Uses :
      (cg : Option ℕ) (cgroup_fd pid : ℤ)
      → Uses r
          (opt_tally r group cg + fd_tally r cgroup_fd)
          (delete_cgroup cg cgroup_fd pid)
          (λ _. 0)
  unfolding delete_cgroup
  delete_cgroup-Uses cg (pos fd) pid =
      bind-Uses r (opt_tally r group cg) (detach_and_close fd pid) (omega arith)
        λ _. last-Uses r 0 (delete_group-Uses cg) (omega arith) (λ a. omega arith)
  delete_cgroup-Uses cg (negsuc fd) pid =
      bind-Uses r (opt_tally r group cg) (pure-Uses r {keep = λ _. 0} tt refl) (omega arith)
        λ _. last-Uses r 0 (delete_group-Uses cg) (omega arith) (λ a. omega arith)
