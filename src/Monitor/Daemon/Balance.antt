-- ===== src/Monitor/Daemon/Balance.antt =====
-- lib/src/monitor.c: a round of the daemon.
use pidnl.Base.{ℕ, suc, ◌≡◌, true}
use pidnl.System.{Process}
use pidnl.System.Ledger.{Resource}
use pidnl.System.Balance.{IsBalanced, balance}
use pidnl.Monitor.Codes.{cmd_unwatch}
use pidnl.Monitor.Client.{send_command}
use pidnl.Monitor.Client.Held.{send_command-Uses}
use pidnl.Monitor.Client.Returns.{in_daemon, send_command-daemon}
use pidnl.Monitor.Daemon.{round}
use pidnl.Monitor.Daemon.Held.{round-Uses}
use pidnl.Monitor.Daemon.Returns.{round-Returns}

-- In the daemon a round of the loop returns, whatever the calls answer: it never ends the process,
-- and a descriptor that it has opened is closed or stands in the table.
pub round-IsBalanced :
    (r : Resource) (depth : ℕ) (p : Process)
    → p.is_monitor_process ≡ true
    → IsBalanced r p (round (send_command (suc (suc depth))) p)
round-IsBalanced r depth p daemon =
    balance p
      (round-Uses r (send_command (suc (suc depth)))
        (send_command-Uses r (suc (suc depth)) cmd_unwatch))
      (round-Returns in_daemon (send_command (suc (suc depth)))
        (send_command-daemon depth cmd_unwatch))
      daemon
