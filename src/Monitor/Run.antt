-- ===== src/Monitor/Run.antt =====
-- lib/src/monitor.c: `monitor_run`, the daemon, from its start to the clean-up after the loop.
use pidnl.Base.{
  ℤ, pos, negsuc, is_neg, int_eq, Bool, true, false, not, List, [], ◌∷◌, Option, none, some, Text,
  codes, if◌then◌else◌, ◌==◌, ◌||◌,
}
use pidnl.System.{
  M, pure, exit, get, modify, ◌>>=◌, ◌>>◌, call, Call, Errno, enoent, Stat, Statted, found,
  stat_failed,
}
use pidnl.Monitor.Codes.{MonitorCode}
use pidnl.Monitor.Daemon.{active_pidfds, event_loop}

abbrev pub socket_dir : Text
socket_dir = codes "/run/pidnl"

abbrev pub socket_path : Text
socket_path = codes "/run/pidnl/monitor.sock"

is_enoent : Errno → Bool
is_enoent enoent = true
is_enoent _ = false

abbrev stat_of : Statted → Option Stat
stat_of (found st) = some st
stat_of (stat_failed errno) = none

-- The directory is made if it is missing. `none` if that fails too.
stat_socket_dir : M (Option Stat)
unfolding is_enoent
stat_socket_dir = do
  first ← call (Call.lstat socket_dir)
  elim first [
    | found st ↦ pure (some st)
    | stat_failed errno ↦ if not (is_enoent errno) then pure none else do
      made ← call (Call.mkdir socket_dir)
      elim made [
        | some e ↦ pure none
        | none ↦ do second ← call (Call.lstat socket_dir); pure (stat_of second)
      ]
  ]

-- Only a real directory of root's is trusted.
trusted : Option Stat → Bool
trusted none = false
trusted (some st) = if not st.is_directory || not (st.uid == 0) then false else true

-- The listening socket, or `exit(1)`.
open_listener : M ℤ
open_listener = do
  call (Call.unlink socket_path)
  fd ← call Call.socket
  if is_neg fd then exit 1 else do
    bound ← call (Call.bind fd socket_path)
    if is_neg bound then call (Call.close fd) >> exit 1 else do
      listening ← call (Call.listen fd)
      if is_neg listening
          then call (Call.close fd) >> (call (Call.unlink socket_path) >> exit 1)
          else pure fd

-- The byte that tells the parent that the socket is ready.
notify_parent : ℤ → M (Unit {0})
notify_parent listener = do
  fd ← get (λ p. p.notify_parent_fd)
  if is_neg fd then pure tt else do
    notified ← call (Call.notify fd)
    call (Call.close fd)
    modify (λ p. record p { notify_parent_fd = negsuc 0 })
    if not (int_eq notified (pos 1))
        then call (Call.close listener) >> (call (Call.unlink socket_path) >> exit 1)
        else pure tt

close_all : List ℤ → M (Unit {0})
close_all [] = pure tt
close_all (fd ∷ fds) = do call (Call.close fd); close_all fds

unfoldable pub monitor_run : (ℤ → ℤ → M MonitorCode) → M (Unit {0})
unfolding stat_socket_dir trusted open_listener notify_parent close_all
monitor_run send = do
  modify (λ p. record p { is_monitor_process = true })
  st ← stat_socket_dir
  if not (trusted st) then exit 1 else do
    listener ← open_listener
    modify (λ p. record p { monitor_socket = listener })
    notify_parent listener
    call Call.set_signals
    rounds ← get (λ p. p.rounds)
    event_loop send rounds
    table ← get (λ p. p.watched_pids)
    close_all (active_pidfds table)
    call (Call.close listener)
    call (Call.unlink socket_path)
