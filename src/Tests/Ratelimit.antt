-- ===== src/Tests/Ratelimit.antt =====
-- Runs of the library at concrete inputs.
use pidnl.Base.{◌++◌, ℕ, ◌≡◌, refl, pos, true, some, codes, text_eq, decimal, arith}
use pidnl.System.{egress_hook, ingress_hook}
use pidnl.Monitor.Client.{send_command}
use pidnl.Ratelimit.Codes.{ratelimit_ok}
use pidnl.Ratelimit.Names.{unlimited}
use pidnl.Ratelimit.Limit.{limit_process_bandwidth}
use pidnl.Ratelimit.Remove.{unregister_rate_limiter_by_pid}
use pidnl.Ratelimit.Cleanup.{ratelimit_cleanup_all, walked_pid}
use pidnl.Ratelimit.Query.{get_rate_limits_from_cgroup}
use pidnl.Ratelimit.Attach.{attach_bpf_programs}
use pidnl.Bpf.{direction_upload, direction_download}
use pidnl.Ratelimit.Cgroups.{egress_pin_name, ingress_pin_name}
use pidnl.Ratelimit.Attach.Logged.{attach_bpf_programs-works}
use pidnl.Ratelimit.Attach.Logged.Trail.{works, limit_work}
use pidnl.Ratelimit.Codes.{RateLimitConfig, success}
use pidnl.Ratelimit.Groups.{build_cgroup_name-injective, walked_pid-decimal}
use pidnl.Ratelimit.Balance.{
  limit_process_bandwidth-IsBalanced, unregister_rate_limiter_by_pid-IsBalanced,
  ratelimit_cleanup_all-IsBalanced, get_rate_limits_from_cgroup-IsBalanced,
}
use pidnl.System.{done}
use pidnl.System.Ledger.{descriptor, group}
use pidnl.System.Balance.{IsBalanced}
use pidnl.Tests.{client, result_of}

limits_4242 :
    result_of (
      limit_process_bandwidth
        (send_command 1)
        (pos 4242)
        (record { upload_kbps = 1000; download_kbps = unlimited })
        client)
    ≡ some ratelimit_ok
unfolding limit_process_bandwidth send_command pidnl.Ratelimit.Cgroups.create_cgroup
    pidnl.System.call pidnl.Ratelimit.Mounts.open_cgroup_fd pidnl.Ratelimit.Mounts.get_cgroup2_mount
    text_eq pidnl.Ratelimit.Cgroups.detach_pinned_links pidnl.Ratelimit.Mounts.get_bpffs_mount
    pidnl.Ratelimit.Cgroups.create_pin_dir pidnl.Ratelimit.Attach.attach_bpf_programs
    pidnl.Ratelimit.Limit.close_rate_limiter_handle pidnl.Monitor.Client.monitor_ensure_running
    pidnl.Monitor.Client.monitor_connect
limits_4242 = refl

limit_process_bandwidth-IsBalanced_example : IsBalanced (descriptor (pos 5)) client (
    limit_process_bandwidth
      (send_command 1)
      (pos 4242)
      (record { upload_kbps = 1000; download_kbps = 2000 })
      client)
limit_process_bandwidth-IsBalanced_example =
    limit_process_bandwidth-IsBalanced (descriptor (pos 5)) 0 (pos 4242)
      (record { upload_kbps = 1000; download_kbps = 2000 }) client refl (λ t. refl)

unregister_rate_limiter_by_pid-IsBalanced_example :
    IsBalanced (group 12) client (unregister_rate_limiter_by_pid (send_command 1) (pos 4242) client)
unregister_rate_limiter_by_pid-IsBalanced_example =
    unregister_rate_limiter_by_pid-IsBalanced (group 12) 0 (pos 4242) client refl (λ t. refl)

ratelimit_cleanup_all-IsBalanced_example :
    IsBalanced (group 12) client (ratelimit_cleanup_all client)
ratelimit_cleanup_all-IsBalanced_example = ratelimit_cleanup_all-IsBalanced (group 12) client

get_rate_limits_from_cgroup-IsBalanced_example :
    IsBalanced (descriptor (pos 9)) client (get_rate_limits_from_cgroup (pos 4242) client)
get_rate_limits_from_cgroup-IsBalanced_example =
    get_rate_limits_from_cgroup-IsBalanced (descriptor (pos 9)) (pos 4242) client

abbrev a_pid : ℕ
a_pid = 4242

build_cgroup_name-injective_example : a_pid ≡ a_pid
build_cgroup_name-injective_example =
    build_cgroup_name-injective a_pid a_pid (omega arith) (omega arith) refl

walked_pid-decimal_example :
    walked_pid (record { is_dir = true; path = decimal 4242 }) ≡ some (pos 4242)
walked_pid-decimal_example = walked_pid-decimal 4242 (omega arith) (omega arith)

abbrev upload_only : RateLimitConfig
upload_only = record { upload_kbps = 1000; download_kbps = unlimited }

attached :
    attach_bpf_programs (pos 5) (codes "/p") upload_only client
    ≡ (done (success 16), (attach_bpf_programs (pos 5) (codes "/p") upload_only client).1)
unfolding attach_bpf_programs pidnl.System.call
attached = refl

attach_bpf_programs-works_example :
    works (attach_bpf_programs (pos 5) (codes "/p") upload_only client).1.trace
    ≡ limit_work (pos 5) (codes "/p") ingress_pin_name ingress_hook direction_download unlimited
      ++ (limit_work (pos 5) (codes "/p") egress_pin_name egress_hook direction_upload 1000
          ++ works client.trace)
attach_bpf_programs-works_example =
    attach_bpf_programs-works (pos 5) (codes "/p") upload_only client
      (attach_bpf_programs (pos 5) (codes "/p") upload_only client).1 16 attached
