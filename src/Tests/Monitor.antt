-- ===== src/Tests/Monitor.antt =====
-- Runs of the monitor at concrete inputs.
use pidnl.Base.{not, ◌==◌, ◌≡◌, refl, pos, [], ◌∷◌, arith}
use pidnl.System.{Call, Env, Process, polled}
use pidnl.Monitor.Codes.{cmd_watch}
use pidnl.Monitor.Table.Invariant.{IsTable, active_count, watches}
use pidnl.Monitor.Table.Kept.{IsServing}
use pidnl.Monitor.Daemon.{round, event_loop}
use pidnl.Monitor.Daemon.Balance.{round-IsBalanced}
use pidnl.Monitor.Client.{send_command}
use pidnl.Monitor.Client.Kept.{event_loop-IsServing}
use pidnl.Monitor.Client.Balance.{local_command-IsBalanced, send_command-IsBalanced}
use pidnl.Monitor.Table.{vacant}
use pidnl.Monitor.Daemon.Swept.{swept, round-swept}
use pidnl.System.{done}
use pidnl.System.Ledger.{descriptor}
use pidnl.System.Balance.{IsBalanced}
use pidnl.Tests.{answers, no_entry, client, daemon}

send_command-IsBalanced_example :
    IsBalanced (descriptor (pos 3)) client (send_command 1 cmd_watch (pos 4242) client)
send_command-IsBalanced_example =
    send_command-IsBalanced (descriptor (pos 3)) 0 cmd_watch (pos 4242) client refl (λ t. refl)

local_command-IsBalanced_example :
    IsBalanced (descriptor (pos 10)) daemon (send_command 2 cmd_watch (pos 4242) daemon)
local_command-IsBalanced_example =
    local_command-IsBalanced (descriptor (pos 10)) 0 cmd_watch (pos 4242) daemon refl

round-IsBalanced_example : IsBalanced (descriptor (pos 4)) daemon (round (send_command 2) daemon)
round-IsBalanced_example = round-IsBalanced (descriptor (pos 4)) 0 daemon refl

daemon-IsTable : IsTable daemon.watched_pids daemon.watched_count
unfolding watches active_count
daemon-IsTable = record { counted = refl; once = λ pid. ground arith }

daemon-IsServing : IsServing daemon.watched_pids daemon.watched_count daemon.is_monitor_process
daemon-IsServing = record { table = daemon-IsTable; daemon = refl }

event_loop-IsServing_example :
    let q = (event_loop (send_command 2) 2 daemon).1 in
    IsServing q.watched_pids q.watched_count q.is_monitor_process
event_loop-IsServing_example = event_loop-IsServing 2 2 daemon daemon-IsServing

-- The process behind descriptor 20 has died.
abbrev dying : Env
dying trace (Call.poll_all fds) = polled (pos 20 ∷ [])
dying trace c = answers c

abbrev mourner : Process
mourner = record daemon { env = dying }

round-swept_example :
    (q : Process) × (round (send_command 1) mourner
      ≡ (done (not (active_count q.watched_pids == 0)), q))
    × IsServing q.watched_pids q.watched_count q.is_monitor_process
    × (q.watched_pids ≡ swept (pos 20 ∷ []) mourner.watched_pids)
unfolding pidnl.Monitor.Daemon.contains
round-swept_example = round-swept 0 mourner (pos 20 ∷ []) daemon-IsServing refl refl

-- The table is then empty.
all_vacant : swept (pos 20 ∷ []) mourner.watched_pids ≡ vacant ∷ no_entry ∷ no_entry ∷ []
unfolding swept
all_vacant = refl
