-- ===== src/Cli.antt =====
-- cli/main.c: the commands. The handlers call `exit`, or return; what they print is left out, but for
-- the rows of `list`. `main` returns its status, with what it prints itself.
pub mod Parse
pub mod Usage
pub mod Numbers
pub mod Runs
pub mod Help
pub mod Print
pub mod Printed
use pidnl.Base.{
  ℕ, zero, suc, ℤ, pos, negsuc, int_eq, Bool, true, false, ◌||◌, ◌&&◌, not, List, [], ◌∷◌, Text,
  codes, text_eq, Option, none, some, ◌==◌, if◌then◌else◌,
}
use pidnl.System.{M, pure, exit, running, ◌>>=◌, ◌>>◌, call, Call}
use pidnl.Monitor.Codes.{MonitorCode}
use pidnl.Discovery.{ProcessInfo, ProcessList}
use pidnl.Discovery.Query.{DiscoveryCode, discovery_ok, Netlink, get_network_processes}
use pidnl.Ratelimit.Names.{unlimited}
use pidnl.Ratelimit.Codes.{RatelimitCode, ratelimit_ok}
use pidnl.Ratelimit.Init.{ratelimit_init}
use pidnl.Ratelimit.Limit.{limit_process_bandwidth}
use pidnl.Ratelimit.Remove.{unregister_rate_limiter_by_pid}
use pidnl.Ratelimit.Cleanup.{ratelimit_cleanup_all}
use pidnl.Ratelimit.Query.{get_rate_limits_from_cgroup}
use pidnl.Cli.Usage.{
  Report, program_usage, usage, missing_command, unknown_command, failed_init, needs_root,
  succeeded,
}
use pidnl.Cli.Parse.{
  parse_rate, parse_pid, has_help_flag, skip_confirmation, format_limit, Command, list, limit,
  clean, find_command, command_index,
}

-- What a run finds outside: the answers to its netlink queries, its standard input, and whether the
-- effective user is root. `reads` bounds the rounds of the loop over `getchar`.
pub record World : Type 0 where
  pub netlink : Netlink
  pub input : Text
  pub reads : ℕ
  pub root : Bool

-- The value of a parser, which ends the process where there is none.
abbrev or_exit : {A : Type 0} → Option A → M A
or_exit none = exit 1
or_exit (some a) = pure a

abbrev is_discovery_ok : DiscoveryCode → Bool
is_discovery_ok discovery_ok = true
is_discovery_ok _ = false

abbrev pub is_ratelimit_ok : RatelimitCode → Bool
is_ratelimit_ok ratelimit_ok = true
is_ratelimit_ok _ = false

-- `get_network_processes`, and the exit where it fails.
pub discover : Netlink → M ProcessList
discover netlink = elim (get_network_processes netlink) [
  | none ↦ λ p. (running, p)
  | some (code, found) ↦ if is_discovery_ok code then pure found else exit 1
]

-- A code other than RATELIMIT_OK ends the process.
abbrev pub check : RatelimitCode → M (Unit {0})
check code = if is_ratelimit_ok code then pure tt else exit 1

-- A row of the table that `print_process_list` prints: the process and its formatted limits.
pub record Row : Type 0 where
  pub process : ProcessInfo
  pub upload : Text
  pub download : Text

list_rows : List ProcessInfo → M (List Row)
unfolding format_limit
list_rows [] = pure []
list_rows (info ∷ infos) = do
  limits ← get_rate_limits_from_cgroup info.pid
  rows ← list_rows infos
  pure (
      record {
        process = info;
        upload = format_limit limits.upload_kbps;
        download = format_limit limits.download_kbps;
      }
      ∷ rows)

abbrev free_opt : Option ℕ → M (Unit {0})
free_opt none = pure tt
free_opt (some address) = call (Call.free address)

-- The part behind the two allocations.
list_limits : List ProcessInfo → Option ℕ → Option ℕ → M (List Row)
unfolding list_rows
list_limits infos (some upload) (some download) = do
  rows ← list_rows infos
  call (Call.free upload)
  call (Call.free download)
  pure rows
list_limits infos upload download = do free_opt upload; free_opt download; exit 1

unfoldable pub cmd_list : Netlink → M (List Row)
unfolding discover list_limits
cmd_list netlink = do
  found ← discover netlink
  upload_limits ← call Call.calloc
  download_limits ← call Call.calloc
  list_limits found.processes upload_limits download_limits

unfoldable pub is_listed : ℤ → List ProcessInfo → Bool
is_listed pid [] = false
is_listed pid (info ∷ infos) = int_eq info.pid pid || is_listed pid infos

-- A byte of standard input, or EOF at its end, with the input behind it.
abbrev pub getchar : Text → ℤ × Text
getchar [] = (negsuc 0, [])
getchar (c ∷ input) = (pos c, input)

-- `while (getchar() != '\n')`, at most `reads` times.
unfoldable pub drain : ℕ → Text → M (Unit {0})
drain zero input = λ p. (running, p)
drain (suc reads) input =
    let (ch, input') = getchar input in
    let rest = drain reads input' in if int_eq ch (pos 10) then pure tt else rest

-- The question of `cmd_clean`.
unfoldable pub confirm : ℕ → Text → M (Unit {0})
unfolding drain
confirm reads input =
    let (ch, input') = getchar input in
    if int_eq ch (pos b'y') || int_eq ch (pos b'Y') then drain reads input' else exit 0

unfoldable pub cmd_clean : ℕ → Text → List Text → M (Unit {0})
unfolding confirm
cmd_clean reads input args = do
  if skip_confirmation args then pure tt else confirm reads input
  code ← ratelimit_cleanup_all
  check code

module _ (send : ℤ → ℤ → M MonitorCode) where
  -- `cmd_limit_set`, with its three arguments parsed.
  set_limit : Netlink → ℤ → ℕ → ℕ → M (Unit {0})
  unfolding discover is_listed
  set_limit netlink pid upload_kbps download_kbps =
      if upload_kbps == unlimited && download_kbps == unlimited then exit 1 else do
        found ← discover netlink
        if not (is_listed pid found.processes) then exit 1 else do
          code ←
              limit_process_bandwidth send pid
                (record { upload_kbps = upload_kbps; download_kbps = download_kbps })
          check code

  unfoldable pub cmd_limit_set : Netlink → List Text → M (Unit {0})
  unfolding set_limit
  cmd_limit_set netlink (pid_arg ∷ upload_arg ∷ download_arg ∷ args) = do
    pid ← or_exit (parse_pid pid_arg)
    upload_kbps ← or_exit (parse_rate upload_arg)
    download_kbps ← or_exit (parse_rate download_arg)
    set_limit netlink pid upload_kbps download_kbps
  cmd_limit_set netlink args = exit 0

  unfoldable pub cmd_limit_unset : List Text → M (Unit {0})
  cmd_limit_unset [] = exit 0
  cmd_limit_unset (pid_arg ∷ args) = do
    pid ← or_exit (parse_pid pid_arg)
    code ← unregister_rate_limiter_by_pid send pid
    check code

  limit_subcommand : Netlink → List Text → M (Unit {0})
  unfolding cmd_limit_set cmd_limit_unset
  limit_subcommand netlink [] = exit 1
  limit_subcommand netlink (name ∷ args) =
      if text_eq name (codes "set")
      then cmd_limit_set netlink args
      else if text_eq name (codes "unset")
      then cmd_limit_unset args
      else exit 1

  unfoldable pub handle_limit : Netlink → List Text → M (Unit {0})
  unfolding limit_subcommand
  handle_limit netlink args = if has_help_flag args then exit 0 else limit_subcommand netlink args

  -- `cmd->handler`
  run_command : World → Command → List Text → M (Unit {0})
  unfolding cmd_list handle_limit cmd_clean
  run_command world list args = cmd_list world.netlink >> pure tt
  run_command world limit args = handle_limit world.netlink args
  run_command world clean args = cmd_clean world.reads world.input args

  -- The branch for `--help`: the usage of a known command, or of the program.
  unfoldable pub help : List Text → Report
  unfolding command_index find_command
  help args = elim (command_index args) [
    | none ↦ succeeded program_usage
    | some (name, rest) ↦ elim (find_command name) [
      | none ↦ unknown_command name
      | some cmd ↦ succeeded (usage cmd)
    ]
  ]

  -- The rest of `main`.
  dispatch : World → List Text → M Report
  unfolding run_command command_index find_command
  dispatch world args = elim (command_index args) [
    | none ↦ pure missing_command
    | some (name, rest) ↦ elim (find_command name) [
      | none ↦ pure (unknown_command name)
      | some cmd ↦
          if not world.root
          then pure needs_root
          else run_command world cmd rest >> pure (succeeded [])
    ]
  ]

  -- `argv[0]` is the program's name.
  unfoldable pub main : World → Text → List Text → M Report
  unfolding help dispatch
  main world name args = do
    code ← ratelimit_init
    if not (is_ratelimit_ok code)
        then pure (failed_init code)
        else if has_help_flag (name ∷ args)
        then pure (help args)
        else dispatch world args
