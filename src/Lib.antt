-- ===== src/Lib.antt =====
-- pidnl limits the bandwidth of single processes: it moves a process into a cgroup of its own and
-- attaches two BPF programs to it, a token bucket for each direction.
--
-- The parts and how they interact. The BPF programs (lib/src/ratelimit.bpf.c) decide on packets and
-- share two maps with the library. The library (lib/src/ratelimit.c) makes and deletes the groups,
-- writes the limits into the maps and pins the links. The monitor (lib/src/monitor.c) is a daemon
-- that the library's client side starts by fork: it holds a pidfd of each limited process and calls
-- the library back when one dies, and the library sends it commands through a socket. Discovery
-- (lib/src/discovery.c) lists the processes that own sockets. The command line (cli/main.c) parses
-- arguments and calls the library and discovery. The graphical program (gui/) starts itself a second
-- time as a privileged process, which calls the library and discovery, and talks to it through two
-- pipes: gui/main.c is the server and the window's handlers, gui/backend.c the client, and
-- gui/processes.c makes the items of the window from what the client reads, and commands for limits
-- from what is typed.
--
-- Bpf is lib/src/ratelimit.bpf.c: `apply_rate_limit`, `egress_rl` and `ingress_rl` on the record
-- Maps, every operation on a __u64 reduced modulo 2 ^ 64. Bpf.Traffic runs a sequence of packets in the
-- order of the lock, with readings of the clock in any order;
-- Bpf.Bounds, Bpf.Policer and Bpf.Verdict hold the theorems.
-- System is what a process of the program is: the calls it has made, newest first, and the static
-- variables of lib/src/monitor.c. System.Calls lists the calls of libc, libcgroup and libbpf. None of
-- that code is in the repository, so an environment, a function of the calls so far, answers each
-- call as it likes, and the theorems hold for all environments unless they say otherwise. A function
-- of the program takes a process to an outcome (done, exited, running) and a process.
-- System.Ledger follows one resource through an operation, System.Returns shows that an operation
-- returns, System.Balance puts the two together, System.Keeps is for invariants of the variables.
-- Ratelimit is lib/src/ratelimit.c, a file for each group of functions: Mounts, Cgroups, Attach,
-- Remove, Init, Limit, Cleanup, Query, with Codes and Names for the constants. In each, Held follows
-- the resources, Returns is about its outcome, Kept about the monitor's variables; Attach.Logged
-- follows the limits, programs and links, Attach.Pinned counts the links.
-- Groups is about the names of the groups, Balance has the theorems on the whole functions.
-- Monitor is lib/src/monitor.c: Table (`watched_pids`), Add, Daemon (the loop of `monitor_run`), Run
-- (the rest of it) and Client (`send_command` and the start of the daemon).
-- Discovery is lib/src/discovery.c: the list, Inode (the search in /proc), Query (the dump) and
-- Owned (the socket and the memory of the list).
-- Monitor.Watched is what the table stands for, a set of PIDs with what a command may do to it, and
-- Refined (under Table, Add and Client) shows that the commands do so. Daemon.Reaped and
-- Daemon.Swept are about the processes that have died.
-- Gui is gui/: the numbers of the protocol, and `handle_limit_cmd` and `handle_clean_cmd` of
-- gui/main.c. Gui.Server is the rest of the privileged process (`handle_list_cmd`, `run_privileged`),
-- an operation of System that returns what it prints. Gui.Client is gui/backend.c: a backend holds
-- what has been written to one pipe, and all that is still to come through the other. Gui.Rows and
-- Gui.Icons are the items, Gui.Entry the entries for limits, Gui.Columns the columns with the widgets
-- in their cells and the view, and Gui.Focus the entries on the screen while the user types and moves
-- the focus, all of gui/processes.c; Gui.Window is the handlers of gui/main.c. Gui.Glib is what these
-- take from GLib, a parameter, with its documented behaviour as a record of laws; Tests.Glib has one
-- that meets them. Of GTK there is the order of signals: an entry that the focus leaves emits `leave`.
-- Of the theorems, Gui.Session and Gui.Balance are about the privileged process by itself,
-- Gui.Protocol, Lines, Shown, Reads, Refresh, Cleaned and Commands about both ends of the pipes,
-- Gui.Cells about the cells of a row, Gui.Entered, Applied and Untouched about one entry, Gui.Settled,
-- Answered, Fitting, Turns, Dispatched, Events and Presented about all of them in a run of events,
-- Gui.Responds and Served about the responses to a run of requests, and Gui.Together and Whole about
-- the two programs at once.
-- Cli is cli/main.c: Parse (arguments), Usage (the texts that `main` prints), the handlers, `main` and
-- Print (the table of `list`); Help, Runs, Numbers and Printed have the theorems. Cstd models `strtol` and `strtoul` in base 10. Base has the shared helpers. Tests has the runs at concrete inputs.
--
-- Bounds and fuel. `Process.rounds` bounds the rounds of the daemon's endless loop: an outcome
-- `running` is a daemon that still runs. `send_command` comes back to itself through `monitor_run`
-- and `add_pid_to_watch`, so it takes a depth: one level is enough in a client that stays the parent
-- at each fork, two are enough in the daemon (Monitor.Client.Returns). `digits` takes the number plus one as its
-- fuel, which exceeds the count of its digits. The loop of `run_privileged` takes the length of the
-- input plus one: each round reads a byte at least (Gui.Session).
-- `World.reads` bounds the loop over `getchar` in `cmd_clean`: the bytes of the input are enough if
-- one is a newline, and no number is if none is (Cli.Runs).
-- A netlink dump is the list of datagrams that arrive, and a query that waits for one more is `none`.
--
-- Not modelled: the messages that the handlers of the command line print, the bytes of netlink
-- headers, the spin lock other than by the order of the packets, the directories that the search in
-- /proc opens, the overflow of the count of a process's connections (an int in C, a number without
-- bound here), and the looks and the layout of the widgets, which are GTK's. A run of events has no refresh in it, where
-- GTK binds the entries anew.
pub mod Base
pub mod Bpf
pub mod Cstd
pub mod System
pub mod Ratelimit
pub mod Discovery
pub mod Cli
pub mod Monitor
pub mod Gui
pub mod Tests
