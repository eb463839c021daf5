-- ===== src/Ratelimit/Cleanup.antt =====
-- lib/src/ratelimit.c: `ratelimit_cleanup_all`.
pub mod Held
pub mod Returns
use pidnl.Base.{
  ℕ, ℤ, is_zero, is_pos, exceeds, Bool, true, false, not, ◌&&◌, ◌||◌, List, [], ◌∷◌, Text, Option,
  none, some, if◌then◌else◌,
}
use pidnl.System.{M, pure, ◌>>=◌, ◌>>◌, call, Call, FileInfo}
use pidnl.Cstd.{strtol, int_max}
use pidnl.Monitor.Client.{monitor_stop}
use pidnl.Ratelimit.Names.{cgroup_name, walk_controller}
use pidnl.Ratelimit.Codes.{RatelimitCode, ratelimit_ok, libcg_delete}
use pidnl.Ratelimit.Remove.{delete_pid_cgroup}

abbrev pub is_empty : Text → Bool
is_empty [] = true
is_empty (c ∷ s) = false

-- The whole text is a PID. (`*endptr` of an unconverted text is its first byte.)
unfoldable pub pid_of_text : Text → Option ℤ
unfolding strtol
pid_of_text text =
    let r = strtol text in
    if r.range_error || (not (is_empty r.rest) || (not (is_pos r.value) || exceeds r.value int_max))
    then none
    else some r.value

-- The PID of a directory below the base group.
unfoldable pub walked_pid : FileInfo → Option ℤ
unfolding pid_of_text
walked_pid info = if info.is_dir && not (is_empty info.path) then pid_of_text info.path else none

delete_entry : Option ℤ → M (Unit {0})
delete_entry none = pure tt
delete_entry (some pid) = delete_pid_cgroup pid >> pure tt

-- The `while` over the walk.
unfoldable pub delete_walked : List FileInfo → M (Unit {0})
unfolding walked_pid delete_entry
delete_walked [] = pure tt
delete_walked (info ∷ infos) = do delete_entry (walked_pid info); delete_walked infos

-- The walk, and the deletion of the base group.
remove_all : ℕ → ℕ × List FileInfo → M RatelimitCode
remove_all cg (handle, infos) = do
  delete_walked infos
  call (Call.cgroup_walk_tree_end handle)
  deleted ← call (Call.cgroup_delete_cgroup cg)
  call (Call.cgroup_free cg)
  if not (is_zero deleted) then pure libcg_delete else monitor_stop >> pure ratelimit_ok

unfoldable pub ratelimit_cleanup_all : M RatelimitCode
unfolding delete_walked remove_all
ratelimit_cleanup_all = do
  new ← call (Call.cgroup_new_cgroup cgroup_name)
  elim new [
    | none ↦ pure ratelimit_ok
    | some cg ↦ do
      read ← call (Call.cgroup_get_cgroup cg)
      if not (is_zero read) then call (Call.cgroup_free cg) >> pure ratelimit_ok else do
        begun ← call (Call.cgroup_walk_tree_begin walk_controller cgroup_name)
        remove_all cg begun
  ]
