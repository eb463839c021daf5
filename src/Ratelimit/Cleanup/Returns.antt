-- ===== src/Ratelimit/Cleanup/Returns.antt =====
-- lib/src/ratelimit.c: the outcome of `ratelimit_cleanup_all`.
use pidnl.Base.{ℕ, ℤ, is_zero, not, List, [], ◌∷◌, Option, none, some}
use pidnl.System.{Call, FileInfo}
use pidnl.System.Returns.{Condition, Returns, bind-Returns, if-Returns, pure-Returns, call-Returns}
use pidnl.Monitor.Client.Returns.{monitor_stop-Returns}
use pidnl.Ratelimit.Names.{cgroup_name, walk_controller}
use pidnl.Ratelimit.Codes.{ratelimit_ok, libcg_delete}
use pidnl.Ratelimit.Remove.Returns.{delete_pid_cgroup-Returns}
use pidnl.Ratelimit.Cleanup.{
  walked_pid, delete_entry, delete_walked, remove_all, ratelimit_cleanup_all,
}

module _ (P : Condition) where
  delete_entry-Returns : (found : Option ℤ) → Returns P (delete_entry found)
  unfolding delete_entry
  delete_entry-Returns none = pure-Returns P tt
  delete_entry-Returns (some pid) =
      bind-Returns P (delete_pid_cgroup-Returns P pid) λ _. pure-Returns P tt

  delete_walked-Returns : (infos : List FileInfo) → Returns P (delete_walked infos)
  unfolding delete_walked
  delete_walked-Returns [] = pure-Returns P tt
  delete_walked-Returns (info ∷ infos) =
      bind-Returns P (delete_entry-Returns (walked_pid info)) λ _. delete_walked-Returns infos

  remove_all-Returns : (cg : ℕ) (begun : ℕ × List FileInfo) → Returns P (remove_all cg begun)
  unfolding remove_all
  remove_all-Returns cg (handle, infos) = bind-Returns P (delete_walked-Returns infos) λ _.
      bind-Returns P (call-Returns P (Call.cgroup_walk_tree_end handle)) λ _.
        bind-Returns P (call-Returns P (Call.cgroup_delete_cgroup cg)) λ deleted.
          bind-Returns P (call-Returns P (Call.cgroup_free cg)) λ _.
            if-Returns P (not (is_zero deleted)) (λ _. pure-Returns P libcg_delete)
              λ _. bind-Returns P (monitor_stop-Returns P) λ _. pure-Returns P ratelimit_ok

  pub ratelimit_cleanup_all-Returns : Returns P ratelimit_cleanup_all
  unfolding ratelimit_cleanup_all
  ratelimit_cleanup_all-Returns =
      bind-Returns P (call-Returns P (Call.cgroup_new_cgroup cgroup_name)) (elim [
        | none ↦ pure-Returns P ratelimit_ok
        | some cg ↦ bind-Returns P (call-Returns P (Call.cgroup_get_cgroup cg)) λ read.
            if-Returns P (not (is_zero read))
              (λ _.
                bind-Returns P (call-Returns P (Call.cgroup_free cg))
                  λ _. pure-Returns P ratelimit_ok)
              λ _.
                bind-Returns P
                  (call-Returns P (Call.cgroup_walk_tree_begin walk_controller cgroup_name))
                  λ begun. (remove_all-Returns cg begun)
      ])
