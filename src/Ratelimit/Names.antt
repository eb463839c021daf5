-- ===== src/Ratelimit/Names.antt =====
-- lib/src/ratelimit.c: the constants, and the names that it builds in fixed buffers.
use pidnl.Base.{ℕ, ℤ, Text, codes, ◌++◌, decimal_int, snprintf}

abbrev pub path_max : ℕ
path_max = 4096

abbrev pub cgroup_name : Text
cgroup_name = codes "pidnl"

abbrev pub walk_controller : Text
walk_controller = codes "cpu"

-- UINT32_MAX
abbrev pub unlimited : ℕ
unlimited = 4294967295

abbrev pub slash : Text
slash = codes "/"

-- `build_cgroup_name`, into a buffer of `size` bytes
unfoldable pub build_cgroup_name : ℤ → ℕ → Text
unfolding decimal_int
build_cgroup_name pid size = snprintf size (cgroup_name ++ (slash ++ decimal_int pid))
