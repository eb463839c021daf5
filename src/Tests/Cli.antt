-- ===== src/Tests/Cli.antt =====
-- Runs of the command line at concrete inputs.
use pidnl.Base.{
  ◌≡◌, refl, pos, true, false, [], ◌∷◌, ◌++◌, codes, map, pieces, text_eq, ◌+◌, ◌-◌, some, decimal,
  inl, arith,
}
use pidnl.System.{done, running}
use pidnl.Discovery.Query.{get_network_processes}
use pidnl.Ratelimit.Query.{get_rate_limits_from_cgroup}
use pidnl.Cli.Parse.{format_limit, parse_pid, parse_rate}
use pidnl.Cli.{Row, cmd_list, World, main, cmd_clean, is_listed}
use pidnl.Cli.Print.{title_line, rule_line, process_line, print_process_list}
use pidnl.Cli.Printed.{cmd_list-lines}
use pidnl.Tests.{client, netlink, one_process, found_4242}
use pidnl.Monitor.Client.{send_command}
use pidnl.Ratelimit.Codes.{ratelimit_ok}
use pidnl.Ratelimit.Names.{unlimited}
use pidnl.Ratelimit.Init.{ratelimit_init}
use pidnl.Cli.Numbers.{parse_pid-decimal, parse_rate-format_limit}
use pidnl.Cli.Usage.{Report, print_command_list}
use pidnl.Cli.Help.{Asks, main-help}
use pidnl.Cli.Runs.{main-inert, cmd_clean-endless}

abbrev nginx_row : Row
nginx_row = record {
  process = record {
    pid = pos 4242;
    process_name = codes "nginx";
    exe_path = [];
    num_connections = 1;
    has_tcp = true;
    has_udp = false;
  };
  upload = codes "1000";
  download = codes "-";
}

listed : cmd_list netlink client ≡ (done (nginx_row ∷ []), (cmd_list netlink client).1)
unfolding cmd_list get_network_processes pidnl.Discovery.Query.count_socket pidnl.System.call
    get_rate_limits_from_cgroup pidnl.Ratelimit.Mounts.open_cgroup_fd
    pidnl.Ratelimit.Mounts.get_cgroup2_mount pidnl.Ratelimit.Query.read_limit_from_cgroup_progs
    text_eq format_limit
listed = refl

printed :
    process_line nginx_row
    ≡ codes
        "4242     nginx                Yes        No         1000         -            (unknown)"
unfolding process_line pidnl.Base.decimal_int
printed = refl

cmd_list-lines_example :
    (map Row.process (nginx_row ∷ []) ≡ one_process.processes)
    × (pieces (print_process_list (nginx_row ∷ []))
        ≡ title_line ∷ rule_line ∷ (map process_line (nginx_row ∷ []) ++ ([] ∷ [])))
cmd_list-lines_example =
    cmd_list-lines netlink one_process (nginx_row ∷ []) client (cmd_list netlink client).1
      found_4242 listed

parse_pid-decimal_example : parse_pid (decimal 4242) ≡ some (pos 4242)
parse_pid-decimal_example = parse_pid-decimal 4242 (omega arith) (omega arith)

parse_rate-format_limit_example : parse_rate (format_limit 1000) ≡ some 1000
parse_rate-format_limit_example = parse_rate-format_limit 1000 (omega arith)

parsed_pid : parse_pid (codes " +4242") ≡ some (pos 4242)
unfolding parse_pid
parsed_pid = refl

parsed_rate : parse_rate (codes "1000") ≡ some 1000
unfolding parse_rate text_eq
parsed_rate = refl

unlimited_rate : parse_rate (codes "-1") ≡ some unlimited
unfolding parse_rate text_eq
unlimited_rate = refl

-- A minus sign is taken modulo 2 ^ 64.
wrapped_rate : parse_rate (codes "-18446744073709551615") ≡ some 1
unfolding parse_rate text_eq
wrapped_rate = refl

no_digits_rate : parse_rate [] ≡ some 0
unfolding parse_rate text_eq
no_digits_rate = refl

unparsed : parse_pid (codes "7") ≡ some (pos 7)
unfolding parse_pid
unparsed = refl

unlisted : is_listed (pos 7) one_process.processes ≡ false
unfolding is_listed
unlisted = refl

abbrev world : World
world = record { netlink = netlink; input = []; reads = 0; root = false }

initialised : ratelimit_init client ≡ (done ratelimit_ok, (ratelimit_init client).1)
unfolding ratelimit_init pidnl.Ratelimit.Mounts.get_cgroup2_mount pidnl.System.call text_eq
initialised = refl

main-inert_example :
    (report : Report) × (main (send_command 1) world (codes "pidnl") (codes "clean" ∷ []) client
      ≡ (done report, (ratelimit_init client).1))
main-inert_example =
    main-inert (send_command 1) world (codes "pidnl") (codes "clean" ∷ []) client
      (ratelimit_init client).1 ratelimit_ok initialised (inl refl)

cmd_clean-endless_example : cmd_clean 1000 (codes "yes") [] client ≡ (running, client)
unfolding pidnl.Cli.Parse.skip_confirmation pidnl.Cli.Runs.has_newline
cmd_clean-endless_example = cmd_clean-endless 1000 b'y' (codes "es") [] client refl refl refl

main-help_example :
    (report : Report) × Asks (codes "-v" ∷ codes "limit" ∷ codes "--help" ∷ []) report
    × (main
          (send_command 1)
          world
          (codes "pidnl")
          (codes "-v" ∷ codes "limit" ∷ codes "--help" ∷ [])
          client
        ≡ (done report, (ratelimit_init client).1))
unfolding pidnl.Cli.Parse.has_help_flag text_eq
main-help_example =
    main-help (send_command 1) world (codes "pidnl")
      (codes "-v" ∷ codes "limit" ∷ codes "--help" ∷ []) client (ratelimit_init client).1
      initialised refl

-- What the command list says.
listed_commands :
    print_command_list
    ≡ codes "  list               List processes with network connections"
      ++ (10
          ∷ (codes "  limit              Limit bandwidth for a process"
              ++ (10 ∷ (codes "  clean              Clean up all rate limits" ++ (10 ∷ [])))))
unfolding print_command_list
listed_commands = refl
