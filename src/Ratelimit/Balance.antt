-- ===== src/Ratelimit/Balance.antt =====
-- lib/src/ratelimit.c: the operations of the interface as a whole.
use pidnl.Base.{ℕ, suc, ℤ, ◌≡◌, is_zero, false}
use pidnl.System.{Process, Trace, Call}
use pidnl.System.Ledger.{Resource}
use pidnl.System.Returns.{anywhere}
use pidnl.System.Balance.{IsBalanced, balance}
use pidnl.Monitor.Codes.{cmd_unwatch}
use pidnl.Monitor.Client.{send_command}
use pidnl.Monitor.Client.Held.{send_command-Uses}
use pidnl.Monitor.Client.Returns.{in_client, send_command-client}
use pidnl.Ratelimit.Codes.{RateLimitConfig}
use pidnl.Ratelimit.Limit.{limit_process_bandwidth}
use pidnl.Ratelimit.Limit.Held.{limit_process_bandwidth-Uses}
use pidnl.Ratelimit.Limit.Returns.{limit_process_bandwidth-Returns}
use pidnl.Ratelimit.Remove.{unregister_rate_limiter_by_pid}
use pidnl.Ratelimit.Remove.Held.{unregister_rate_limiter_by_pid-Uses}
use pidnl.Ratelimit.Remove.Returns.{unregister_rate_limiter_by_pid-Returns}
use pidnl.Ratelimit.Cleanup.{ratelimit_cleanup_all}
use pidnl.Ratelimit.Cleanup.Held.{ratelimit_cleanup_all-Uses}
use pidnl.Ratelimit.Cleanup.Returns.{ratelimit_cleanup_all-Returns}
use pidnl.Ratelimit.Query.{get_rate_limits_from_cgroup}
use pidnl.Ratelimit.Query.Held.{get_rate_limits_from_cgroup-Uses}
use pidnl.Ratelimit.Query.Returns.{get_rate_limits_from_cgroup-Returns}

-- Whatever the calls answer, in a client that goes on as the parent after every `fork`, the function
-- returns, and every descriptor, group, skeleton, link, block, stream and walk that it has acquired
-- it has released: success, errors at every step and the command to the monitor included.
pub limit_process_bandwidth-IsBalanced :
    (r : Resource) (depth : ℕ) (pid : ℤ) (config : RateLimitConfig) (p : Process)
    → p.is_monitor_process ≡ false
    → ((t : Trace) → is_zero (p.env t Call.fork) ≡ false)
    → IsBalanced r p (limit_process_bandwidth (send_command (suc depth)) pid config p)
limit_process_bandwidth-IsBalanced r depth pid config p client parent =
    balance p
      (limit_process_bandwidth-Uses r (send_command (suc depth)) (send_command-Uses r (suc depth))
        pid config)
      (limit_process_bandwidth-Returns in_client (send_command (suc depth))
        (send_command-client depth) pid config)
      (client, parent)

-- In a client that goes on as the parent after every `fork` the function
-- returns and holds nothing, whatever the calls answer.
pub unregister_rate_limiter_by_pid-IsBalanced :
    (r : Resource) (depth : ℕ) (pid : ℤ) (p : Process)
    → p.is_monitor_process ≡ false
    → ((t : Trace) → is_zero (p.env t Call.fork) ≡ false)
    → IsBalanced r p (unregister_rate_limiter_by_pid (send_command (suc depth)) pid p)
unregister_rate_limiter_by_pid-IsBalanced r depth pid p client parent =
    balance p
      (unregister_rate_limiter_by_pid-Uses r (send_command (suc depth)) pid
        (send_command-Uses r (suc depth) cmd_unwatch pid))
      (unregister_rate_limiter_by_pid-Returns in_client (send_command (suc depth)) pid
        (send_command-client depth cmd_unwatch pid))
      (client, parent)

-- The cleaning up returns in any process, however many groups the walk yields, and holds nothing.
pub ratelimit_cleanup_all-IsBalanced :
    (r : Resource) (p : Process) → IsBalanced r p (ratelimit_cleanup_all p)
ratelimit_cleanup_all-IsBalanced r p =
    balance p (ratelimit_cleanup_all-Uses r) (ratelimit_cleanup_all-Returns anywhere) tt

-- Whatever the calls answer, and whatever ids a read behind `map_ids` yields where a program has more than
-- two maps, reading the limits returns, and every descriptor that it has opened is closed.
pub get_rate_limits_from_cgroup-IsBalanced :
    (r : Resource) (pid : ℤ) (p : Process) → IsBalanced r p (get_rate_limits_from_cgroup pid p)
get_rate_limits_from_cgroup-IsBalanced r pid p =
    balance p (get_rate_limits_from_cgroup-Uses r pid)
      (get_rate_limits_from_cgroup-Returns anywhere pid) tt
