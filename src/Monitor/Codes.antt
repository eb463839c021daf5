-- ===== src/Monitor/Codes.antt =====
-- lib/src/monitor.h and monitor.c: the commands, `monitor_code`, its numbers and its texts.
use pidnl.Base.{
  Bool-cases, inl, inr, int_eq_iff, refl, ◌≡◌, ℤ, pos, int_eq, Text, codes, List, [], ◌∷◌,
  if◌then◌else◌,
}

abbrev pub cmd_watch : ℤ
cmd_watch = pos 1

abbrev pub cmd_unwatch : ℤ
cmd_unwatch = pos 2

abbrev pub cmd_stop : ℤ
cmd_stop = pos 3

-- `unknown n` is the value n cast to `monitor_code`, where no enumerator has that value.
pub data MonitorCode : Type 0 where
  monitor_ok no_socket no_connect no_bind no_listen no_pipe no_fork no_write no_read : MonitorCode
  no_pidfd no_slots not_found timed_out : MonitorCode
  unknown : ℤ → MonitorCode

unfoldable pub code_int : MonitorCode → ℤ
code_int monitor_ok = pos 0
code_int no_socket = pos 1
code_int no_connect = pos 2
code_int no_bind = pos 3
code_int no_listen = pos 4
code_int no_pipe = pos 5
code_int no_fork = pos 6
code_int no_write = pos 7
code_int no_read = pos 8
code_int no_pidfd = pos 9
code_int no_slots = pos 10
code_int not_found = pos 11
code_int timed_out = pos 12
code_int (unknown n) = n

abbrev enumerators : List MonitorCode
enumerators =
    monitor_ok ∷ no_socket ∷ no_connect ∷ no_bind ∷ no_listen ∷ no_pipe ∷ no_fork ∷ no_write
    ∷ no_read ∷ no_pidfd ∷ no_slots ∷ not_found ∷ timed_out ∷ []

find_code : ℤ → List MonitorCode → MonitorCode
unfolding code_int
find_code n [] = unknown n
find_code n (c ∷ cs) = if int_eq (code_int c) n then c else find_code n cs

-- `(monitor_code)result`
unfoldable pub code_of_int : ℤ → MonitorCode
unfolding find_code
code_of_int n = find_code n enumerators

code_int-find_code : (n : ℤ) (cs : List MonitorCode) → code_int (find_code n cs) ≡ n
unfolding find_code code_int
code_int-find_code n [] = refl
code_int-find_code n (c ∷ cs) = elim (Bool-cases (int_eq (code_int c) n)) [
  | inl same ↦ rw (same) ((int_eq_iff (code_int c) n).0 same)
  | inr other ↦ rw (other) (code_int-find_code n cs)
]

-- The client's cast of the daemon's answer keeps its number, whatever the number is.
pub code_int-code_of_int : (n : ℤ) → code_int (code_of_int n) ≡ n
unfolding code_of_int
code_int-code_of_int n = code_int-find_code n enumerators

-- `monitor_code_string`
unfoldable pub monitor_code_string : MonitorCode → Text
monitor_code_string monitor_ok = codes "Success"
monitor_code_string no_socket = codes "Failed to create socket"
monitor_code_string no_connect = codes "Failed to connect to monitor daemon"
monitor_code_string no_bind = codes "Failed to bind socket"
monitor_code_string no_listen = codes "Failed to listen on socket"
monitor_code_string no_pipe = codes "Failed to create pipe"
monitor_code_string no_fork = codes "Failed to fork daemon process"
monitor_code_string no_write = codes "Failed to write to socket"
monitor_code_string no_read = codes "Failed to read from socket"
monitor_code_string no_pidfd = codes "Failed to create pidfd"
monitor_code_string no_slots = codes "No available slots for watching PIDs"
monitor_code_string not_found = codes "PID not found in watch list"
monitor_code_string timed_out = codes "Timeout waiting for daemon startup"
monitor_code_string (unknown n) = codes "Unknown error"
