-- ===== src/Gui/Server.antt =====
-- gui/main.c: `handle_list_cmd` and `run_privileged`. An operation returns what it prints; standard
-- input is the text that is to come before its end.
use pidnl.Base.{
  ℕ, zero, suc, ◌%◌, ◌^◌, ℤ, pos, int_eq, Bool, true, false, List, [], ◌∷◌, ◌++◌, Text, ◌==◌,
  length, decimal, decimal_int, Option, none, some, if◌then◌else◌,
}
use pidnl.System.{M, pure, ◌>>=◌, ◌>>◌}
use pidnl.Monitor.Codes.{MonitorCode}
use pidnl.Discovery.{ProcessInfo, ProcessList}
use pidnl.Discovery.Query.{Netlink}
use pidnl.Discovery.Owned.{Memory, wait, destroy_process_list, find_network_processes}
use pidnl.Ratelimit.Codes.{ratelimit_ok}
use pidnl.Ratelimit.Init.{ratelimit_init}
use pidnl.Ratelimit.Query.{Limits, get_rate_limits_from_cgroup}
use pidnl.Gui.{
  backend_cmd_list, cmd_limit, backend_cmd_quit, backend_cmd_clean, response_ready, response_error,
  scan_longs, handle_limit_cmd, handle_clean_cmd,
}
use pidnl.Gui.Client.{command_line}

-- A process with the two limits, which are `uint32_t` variables.
pub record ListRow : Type 0 where
  pub info : ProcessInfo
  pub upload_kbps : ℕ
  pub download_kbps : ℕ

abbrev pub word : ℕ → ℕ
word n = n % 2 ^ 32

abbrev pub row_of : ProcessInfo → Limits → ListRow
row_of info limits = record {
  info = info;
  upload_kbps = word limits.upload_kbps;
  download_kbps = word limits.download_kbps;
}

-- `%d` of a flag
abbrev pub flag : Bool → ℕ
flag false = 0
flag true = 1

-- The part of a row's first line behind the PID.
unfoldable pub row_tail : ListRow → Text
unfolding decimal
row_tail row =
    let info = row.info in
    b' '
    ∷ (decimal info.num_connections
        ++ (b' '
            ∷ (decimal (flag info.has_tcp)
                ++ (b' '
                    ∷ (decimal (flag info.has_udp)
                        ++ (b' '
                            ∷ (decimal row.upload_kbps
                                ++ (b' '
                                    ∷ (decimal row.download_kbps
                                        ++ (b' ' ∷ info.process_name))))))))))

-- `"%d %d %d %d %u %u %s\n%s\n"`
unfoldable pub row_text : ListRow → Text
unfolding row_tail decimal_int
row_text row = (decimal_int row.info.pid ++ row_tail row) ++ (10 ∷ (row.info.exe_path ++ (10 ∷ [])))

unfoldable pub rows_text : List ListRow → Text
unfolding row_text
rows_text [] = []
rows_text (row ∷ rows) = row_text row ++ rows_text rows

-- The loop over the processes.
unfoldable pub look_up : List ProcessInfo → M (List ListRow)
unfolding get_rate_limits_from_cgroup
look_up [] = pure []
look_up (info ∷ infos) = do
  limits ← get_rate_limits_from_cgroup info.pid
  rows ← look_up infos
  pure (row_of info limits ∷ rows)

-- The answer to a list command.
unfoldable pub list_text : List ListRow → Text
unfolding rows_text command_line
list_text rows = command_line (length rows) ++ rows_text rows

-- What is printed where the processes are not found.
abbrev pub failed_list : Text
failed_list = command_line response_error

-- From the result of `get_network_processes` on.
unfoldable pub print_list : Option (ProcessList × Memory) → M Text
unfolding look_up list_text destroy_process_list
print_list none = pure failed_list
print_list (some (list, memory)) = do
  rows ← look_up list.processes
  destroy_process_list memory
  pure (list_text rows)

unfoldable pub handle_list_cmd : Netlink → M Text
unfolding print_list find_network_processes
handle_list_cmd netlink = find_network_processes netlink >>= print_list

-- `fgets` with room for `n` bytes before the NUL: the bytes up to a newline, and the bytes behind.
unfoldable pub fgets : ℕ → Text → Text × Text
fgets zero input = ([], input)
fgets (suc n) [] = ([], [])
fgets (suc n) (c ∷ input) =
    let more = fgets n input in if c == 10 then (c ∷ [], input) else (c ∷ more.0, more.1)

-- `sizeof(line) - 1`
abbrev pub line_room : ℕ
line_room = 63

-- What a command makes the loop do.
pub data Reaction : Type 0 where
  goes_on : Text → Reaction
  quits : Reaction

-- The rest of the loop behind a command, whose output comes first.
abbrev pub after_command : M Text → Reaction → M Text
after_command next (goes_on out) = next >>= (λ more. pure (out ++ more))
after_command next quits = pure []

module _ (send : ℤ → ℤ → M MonitorCode) where
  -- The `switch` over the commands. Any other number is passed over.
  unfoldable pub switch : Netlink → Text → ℤ → M Reaction
  unfolding handle_list_cmd handle_limit_cmd handle_clean_cmd command_line
  switch netlink line cmd =
      if int_eq cmd (pos backend_cmd_list)
      then handle_list_cmd netlink >>= (λ out. pure (goes_on out))
      else if int_eq cmd (pos cmd_limit)
      then handle_limit_cmd send line >>= (λ r. pure (goes_on (command_line r)))
      else if int_eq cmd (pos backend_cmd_clean)
      then handle_clean_cmd >>= (λ r. pure (goes_on (command_line r)))
      else if int_eq cmd (pos backend_cmd_quit)
      then pure quits
      else pure (goes_on [])

  -- A line without a number is passed over.
  unfoldable pub serve_number : Netlink → Text → Option (List ℤ) → M Reaction
  unfolding switch
  serve_number netlink line (some (cmd ∷ more)) = switch netlink line cmd
  serve_number netlink line _ = pure (goes_on [])

  -- One line of input.
  unfoldable pub serve_line : Netlink → Text → M Reaction
  unfolding serve_number scan_longs
  serve_line netlink line = serve_number netlink line (scan_longs 1 line)

  -- The loop, with fuel for its rounds; it returns what it has printed. What the kernel tells a list
  -- command may depend on when it is asked, which the rest of the input names.
  unfoldable pub serve : (Text → Netlink) → ℕ → Text → M Text
  unfolding serve_line fgets
  serve netlinks zero input = wait
  serve netlinks (suc fuel) [] = pure []
  serve netlinks (suc fuel) (c ∷ input) =
      let (line, later) = fgets line_room (c ∷ input) in
      serve_line (netlinks later) line >>= after_command (serve netlinks fuel later)

  -- The exit status, and what is printed. A byte of input is read in each round at least.
  unfoldable pub run_privileged : (Text → Netlink) → Text → M (ℕ × Text)
  unfolding serve ratelimit_init command_line
  run_privileged netlinks input = do
    rc ← ratelimit_init
    elim rc [
      | ratelimit_ok ↦
          serve netlinks (suc (length input)) input
          >>= (λ out. pure (0, command_line response_ready ++ out))
      | _ ↦ pure (1, command_line response_error)
    ]
