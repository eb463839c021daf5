-- ===== src/Ratelimit/Init.antt =====
-- lib/src/ratelimit.c: `ratelimit_init`.
use pidnl.Base.{is_zero, not, none, some, if◌then◌else◌}
use pidnl.System.{M, pure, ◌>>=◌, call, Call}
use pidnl.Ratelimit.Names.{path_max}
use pidnl.Ratelimit.Codes.{RatelimitCode, ratelimit_ok, libcg_init, no_cgroup2}
use pidnl.Ratelimit.Mounts.{get_cgroup2_mount}

unfoldable pub ratelimit_init : M RatelimitCode
ratelimit_init = do
  ret ← call Call.cgroup_init
  if not (is_zero ret) then pure libcg_init else do
    mount ← get_cgroup2_mount path_max
    pure (elim mount [ none ↦ no_cgroup2 | some root ↦ ratelimit_ok ])
