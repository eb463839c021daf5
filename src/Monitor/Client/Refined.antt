-- ===== src/Monitor/Client/Refined.antt =====
-- lib/src/monitor.c: the set of PIDs under the commands that the daemon carries out.
use pidnl.System.Keeps.{Keeps}
