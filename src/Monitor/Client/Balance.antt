-- ===== src/Monitor/Client/Balance.antt =====
-- lib/src/monitor.c: `send_command` in the daemon and in a client.
use pidnl.Base.{ℕ, suc, ℤ, ◌≡◌, is_zero, false, true}
use pidnl.System.{Process, Trace, Call}
use pidnl.System.Ledger.{Resource}
use pidnl.System.Balance.{IsBalanced, balance}
use pidnl.Monitor.Client.{send_command}
use pidnl.Monitor.Client.Held.{send_command-Uses}
use pidnl.Monitor.Client.Returns.{send_command-client, send_command-daemon}

-- In the daemon a command returns, two levels deep at most, and what it opens stands in the table
-- afterwards or is closed again, whatever the calls answer.
pub local_command-IsBalanced :
    (r : Resource) (depth : ℕ) (cmd pid : ℤ) (p : Process)
    → p.is_monitor_process ≡ true
    → IsBalanced r p (send_command (suc (suc depth)) cmd pid p)
local_command-IsBalanced r depth cmd pid p daemon =
    balance p (send_command-Uses r (suc (suc depth)) cmd pid) (send_command-daemon depth cmd pid)
      daemon

-- In a client that goes on as the parent after every `fork` a command returns, one level deep, and
-- holds nothing afterwards, whatever the calls answer.
pub send_command-IsBalanced :
    (r : Resource) (depth : ℕ) (cmd pid : ℤ) (p : Process)
    → p.is_monitor_process ≡ false
    → ((t : Trace) → is_zero (p.env t Call.fork) ≡ false)
    → IsBalanced r p (send_command (suc depth) cmd pid p)
send_command-IsBalanced r depth cmd pid p client parent =
    balance p (send_command-Uses r (suc depth) cmd pid) (send_command-client depth cmd pid)
      (client, parent)
