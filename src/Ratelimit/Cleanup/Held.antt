-- ===== src/Ratelimit/Cleanup/Held.antt =====
-- lib/src/ratelimit.c: the resources of `ratelimit_cleanup_all`.
use pidnl.Base.{ℕ, ℤ, ◌+◌, is_zero, not, List, [], ◌∷◌, Option, none, some, arith}
use pidnl.System.{Call, FileInfo}
use pidnl.System.Ledger.{
  Resource, group, walk, tally, Uses, bind-Uses, last-Uses, if-Uses, pure-Uses, call-Uses,
}
use pidnl.Monitor.Client.Held.{monitor_stop-Uses}
use pidnl.Ratelimit.Names.{cgroup_name, walk_controller}
use pidnl.Ratelimit.Codes.{ratelimit_ok, libcg_delete}
use pidnl.Ratelimit.Remove.Held.{delete_pid_cgroup-Uses}
use pidnl.Ratelimit.Cleanup.{
  walked_pid, delete_entry, delete_walked, remove_all, ratelimit_cleanup_all,
}

module _ (r : Resource) where
  delete_entry-Uses : (found : Option ℤ) → Uses r 0 (delete_entry found) (λ _. 0)
  unfolding delete_entry
  delete_entry-Uses none = pure-Uses r tt (omega arith)
  delete_entry-Uses (some pid) =
      bind-Uses r 0 (delete_pid_cgroup-Uses r pid) (omega arith) λ _. pure-Uses r tt (omega arith)

  delete_walked-Uses : (infos : List FileInfo) → Uses r 0 (delete_walked infos) (λ _. 0)
  unfolding delete_walked
  delete_walked-Uses [] = pure-Uses r tt (omega arith)
  delete_walked-Uses (info ∷ infos) =
      bind-Uses r 0 (delete_entry-Uses (walked_pid info)) (omega arith)
        λ _. delete_walked-Uses infos

  remove_all-Uses :
      (cg : ℕ) (begun : ℕ × List FileInfo)
      → Uses r (tally r (group cg) + tally r (walk begun.0)) (remove_all cg begun) (λ _. 0)
  unfolding remove_all
  remove_all-Uses cg (handle, infos) =
      let own = tally r (group cg) in
      bind-Uses r (own + tally r (walk handle)) (delete_walked-Uses infos) (omega arith) λ _.
        bind-Uses r own (call-Uses r (Call.cgroup_walk_tree_end handle)) (omega arith) λ _.
          bind-Uses r own (call-Uses r (Call.cgroup_delete_cgroup cg)) (omega arith) λ deleted.
            bind-Uses r 0 (call-Uses r (Call.cgroup_free cg)) (omega arith) λ _.
              if-Uses r (not (is_zero deleted)) (λ _. pure-Uses r libcg_delete (omega arith))
                λ _.
                  bind-Uses r 0 (monitor_stop-Uses r) (omega arith)
                    λ _. pure-Uses r ratelimit_ok (omega arith)

  pub ratelimit_cleanup_all-Uses : Uses r 0 ratelimit_cleanup_all (λ _. 0)
  unfolding ratelimit_cleanup_all
  ratelimit_cleanup_all-Uses =
      bind-Uses r 0 (call-Uses r (Call.cgroup_new_cgroup cgroup_name)) (omega arith) (elim [
        | none ↦ pure-Uses r ratelimit_ok (omega arith)
        | some cg ↦
            let own = tally r (group cg) in
            bind-Uses r own (call-Uses r (Call.cgroup_get_cgroup cg)) (omega arith) λ read.
              if-Uses r (not (is_zero read))
                (λ _.
                  bind-Uses r 0 (call-Uses r (Call.cgroup_free cg)) (omega arith)
                    λ _. pure-Uses r ratelimit_ok (omega arith))
                λ _.
                  bind-Uses r own
                    (call-Uses r (Call.cgroup_walk_tree_begin walk_controller cgroup_name))
                    (omega arith)
                    λ begun.
                      last-Uses r 0 (remove_all-Uses cg begun) (omega arith) (λ a. omega arith)
      ])
