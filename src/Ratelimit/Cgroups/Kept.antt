-- ===== src/Ratelimit/Cgroups/Kept.antt =====
-- lib/src/ratelimit.c: the monitor's variables under the operations on groups and pins.
use pidnl.Base.{ℕ, ℤ, is_neg, Text, List, [], ◌∷◌, Option, none, some, snprintf}
use pidnl.System.{Call}
use pidnl.System.Keeps.{Property, Keeps, bind-Keeps, if-Keeps, pure-Keeps, call-Keeps}
use pidnl.Ratelimit.Names.{path_max}
use pidnl.Ratelimit.Mounts.Kept.{get_bpffs_mount-Keeps}
use pidnl.Ratelimit.Cgroups.{
  detach_link, detach_links, detach_pinned_links, delete_group, delete_cgroup, pid_dir,
  egress_pin_name, ingress_pin_name,
}

module _ (I : Property) where
  detach_link-Keeps : (path : Text) → Keeps I (detach_link path)
  unfolding detach_link
  detach_link-Keeps path = bind-Keeps I (call-Keeps I (Call.bpf_obj_get path)) λ fd.
      bind-Keeps I
        (if-Keeps I (is_neg fd) (pure-Keeps I tt)
          (bind-Keeps I (call-Keeps I (Call.bpf_link_detach fd)) λ _. call-Keeps I (Call.close fd)))
        λ _. call-Keeps I (Call.unlink path)

  detach_links-Keeps :
      (root : Text) (pid : ℤ) (names : List Text) → Keeps I (detach_links root pid names)
  unfolding detach_links
  detach_links-Keeps root pid [] = pure-Keeps I tt
  detach_links-Keeps root pid (name ∷ names) =
      bind-Keeps I (detach_link-Keeps _) λ _. detach_links-Keeps root pid names

  pub detach_pinned_links-Keeps : (pid : ℤ) → Keeps I (detach_pinned_links pid)
  unfolding detach_pinned_links
  detach_pinned_links-Keeps pid = bind-Keeps I (get_bpffs_mount-Keeps I path_max) (elim [
    | none ↦ pure-Keeps I tt
    | some root ↦
        bind-Keeps I (detach_links-Keeps root pid (egress_pin_name ∷ ingress_pin_name ∷ []))
          λ _. call-Keeps I (Call.rmdir (snprintf path_max (pid_dir root pid)))
  ])

  delete_group-Keeps : (cg : Option ℕ) → Keeps I (delete_group cg)
  unfolding delete_group
  delete_group-Keeps none = pure-Keeps I tt
  delete_group-Keeps (some cg) =
      bind-Keeps I (call-Keeps I (Call.cgroup_delete_cgroup cg))
        λ _. call-Keeps I (Call.cgroup_free cg)

  pub delete_cgroup-Keeps :
      (cg : Option ℕ) (cgroup_fd pid : ℤ) → Keeps I (delete_cgroup cg cgroup_fd pid)
  unfolding delete_cgroup
  delete_cgroup-Keeps cg cgroup_fd pid =
      bind-Keeps I
        (if-Keeps I (is_neg cgroup_fd) (pure-Keeps I tt)
          (bind-Keeps I (detach_pinned_links-Keeps pid) λ _. call-Keeps I (Call.close cgroup_fd)))
        λ _. delete_group-Keeps cg
