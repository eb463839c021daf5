-- ===== src/Ratelimit/Codes.antt =====
-- lib/src/ratelimit.h and ratelimit.c: `ratelimit_code`, its texts and `rate_limit_config`.
use pidnl.Base.{ℕ, Text, codes}

pub data RatelimitCode : Type 0 where
  ratelimit_ok invalid_pid alloc open_cgroup bpf_open bpf_load bpf_link bpf_pin : RatelimitCode
  cgroup_not_found libcg_init libcg_create libcg_attach libcg_delete : RatelimitCode
  no_cgroup2 no_bpffs : RatelimitCode

-- `ratelimit_code_string`
unfoldable pub ratelimit_code_string : RatelimitCode → Text
ratelimit_code_string ratelimit_ok = codes "Success"
ratelimit_code_string invalid_pid = codes "Invalid PID"
ratelimit_code_string alloc = codes "Memory allocation failed"
ratelimit_code_string open_cgroup = codes "Failed to open cgroup"
ratelimit_code_string bpf_open = codes "Failed to open BPF object"
ratelimit_code_string bpf_load = codes "Failed to load BPF program"
ratelimit_code_string bpf_link = codes "Failed to create BPF link"
ratelimit_code_string bpf_pin = codes "Failed to pin BPF link"
ratelimit_code_string cgroup_not_found = codes "No rate limit set for PID"
ratelimit_code_string libcg_init = codes "Failed to initialize libcgroup"
ratelimit_code_string libcg_create = codes "Failed to create cgroup"
ratelimit_code_string libcg_attach = codes "Failed to attach process to cgroup"
ratelimit_code_string libcg_delete = codes "Failed to delete cgroup"
ratelimit_code_string no_cgroup2 = codes "cgroup v2 is required but not available"
ratelimit_code_string no_bpffs = codes "bpffs is required but not available"

pub record RateLimitConfig : Type 0 where
  pub upload_kbps : ℕ
  pub download_kbps : ℕ

-- A code other than RATELIMIT_OK, or RATELIMIT_OK and what the function hands out.
pub data Fallible (A : Type 0) : Type 0 where
  failure : RatelimitCode → Fallible A
  success : A → Fallible A
