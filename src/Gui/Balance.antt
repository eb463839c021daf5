-- ===== src/Gui/Balance.antt =====
-- gui/main.c: what a command for a limit leaves behind in the privileged process.
use pidnl.Base.{ℕ, suc, ℤ, pos, int_eq, ◌&&◌, ◌≡◌, false, is_zero, Text, Option, none, some, arith}
use pidnl.System.{Process, Trace, Call, M}
use pidnl.System.Ledger.{Resource, Uses, bind-Uses, if-Uses, pure-Uses}
use pidnl.System.Returns.{Condition, Returns, bind-Returns, if-Returns, pure-Returns}
use pidnl.System.Balance.{IsBalanced, balance}
use pidnl.Monitor.Codes.{MonitorCode, cmd_unwatch}
use pidnl.Monitor.Client.{send_command}
use pidnl.Monitor.Client.Held.{send_command-Uses}
use pidnl.Monitor.Client.Returns.{in_client, send_command-client}
use pidnl.Ratelimit.Names.{unlimited}
use pidnl.Ratelimit.Limit.Held.{limit_process_bandwidth-Uses}
use pidnl.Ratelimit.Limit.Returns.{limit_process_bandwidth-Returns}
use pidnl.Ratelimit.Remove.Held.{unregister_rate_limiter_by_pid-Uses}
use pidnl.Ratelimit.Remove.Returns.{unregister_rate_limiter_by_pid-Returns}
use pidnl.Gui.{LimitRequest, limit_request, serve_limit, handle_limit_cmd}

pub serve_limit-Uses :
    (r : Resource) (send : ℤ → ℤ → M MonitorCode)
    → ((cmd pid : ℤ) → Uses r 0 (send cmd pid) (λ _. 0))
    → (request : Option LimitRequest) → Uses r 0 (serve_limit send request) (λ _. 0)
unfolding serve_limit
serve_limit-Uses r send u none = pure-Uses r _ (omega arith)
serve_limit-Uses r send u (some q) =
    if-Uses r (int_eq q.upload (pos unlimited) && int_eq q.download (pos unlimited))
      (λ _.
        bind-Uses r 0 (unregister_rate_limiter_by_pid-Uses r send q.pid (u cmd_unwatch q.pid))
          (omega arith) λ code. pure-Uses r _ (omega arith))
      λ _.
        bind-Uses r 0 (limit_process_bandwidth-Uses r send u q.pid _) (omega arith)
          λ code. pure-Uses r _ (omega arith)

pub serve_limit-Returns :
    (P : Condition) (send : ℤ → ℤ → M MonitorCode)
    → ((cmd pid : ℤ) → Returns P (send cmd pid))
    → (request : Option LimitRequest) → Returns P (serve_limit send request)
unfolding serve_limit
serve_limit-Returns P send u none = pure-Returns P _
serve_limit-Returns P send u (some q) =
    if-Returns P (int_eq q.upload (pos unlimited) && int_eq q.download (pos unlimited))
      (λ _.
        bind-Returns P (unregister_rate_limiter_by_pid-Returns P send q.pid (u cmd_unwatch q.pid))
          λ code. pure-Returns P _)
      λ _.
        bind-Returns P (limit_process_bandwidth-Returns P send u q.pid _) λ code. pure-Returns P _

-- Whatever the line, in a client that goes on as the parent after every `fork` the command is
-- answered, and every resource that it has acquired is released.
pub handle_limit_cmd-IsBalanced :
    (r : Resource) (depth : ℕ) (line : Text) (p : Process)
    → p.is_monitor_process ≡ false
    → ((t : Trace) → is_zero (p.env t Call.fork) ≡ false)
    → IsBalanced r p (handle_limit_cmd (send_command (suc depth)) line p)
unfolding handle_limit_cmd
handle_limit_cmd-IsBalanced r depth line p client parent =
    balance p
      (serve_limit-Uses r (send_command (suc depth)) (send_command-Uses r (suc depth))
        (limit_request line))
      (serve_limit-Returns in_client (send_command (suc depth)) (send_command-client depth)
        (limit_request line))
      (client, parent)
