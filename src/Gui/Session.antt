-- ===== src/Gui/Session.antt =====
-- gui/main.c: a session of the privileged process, from its start to the end of its input.
pub mod Steps
use pidnl.Base.{
  ℕ, zero, suc, ◌<◌, ◌≡◌, ◌≢◌, ℤ, pos, int_eq, is_zero, false, List, [], ◌∷◌, Text, length, Option,
  none, some, arith,
}
use pidnl.System.{Process, Trace, Call}
use pidnl.System.Ledger.{Resource, Uses, bind-Uses, if-Uses, pure-Uses}
use pidnl.System.Returns.{Returns, bind-Returns, if-Returns, pure-Returns}
use pidnl.System.Balance.{IsBalanced, balance}
use pidnl.Monitor.Client.{send_command}
use pidnl.Monitor.Client.Held.{send_command-Uses}
use pidnl.Monitor.Client.Returns.{in_client, send_command-client}
use pidnl.Discovery.Query.{Netlink, get_network_processes}
use pidnl.Ratelimit.Codes.{ratelimit_ok}
use pidnl.Gui.{
  backend_cmd_list, cmd_limit, backend_cmd_clean, backend_cmd_quit, scan_longs, limit_request,
  handle_limit_cmd,
}
use pidnl.Gui.Balance.{serve_limit-Uses, serve_limit-Returns}
use pidnl.Gui.Server.{fgets, line_room, switch, serve_number, serve_line, serve, run_privileged}
use pidnl.Gui.Session.Steps.{
  ratelimit_init-Uses, ratelimit_init-Returns, wait-Uses, handle_list_cmd-Uses,
  handle_list_cmd-Returns, handle_clean_cmd-Uses, handle_clean_cmd-Returns, after_command-Uses,
  after_command-Returns, fgets_fuel,
}

module _ (r : Resource) (depth : ℕ) where
  switch-Uses :
      (netlink : Netlink) (line : Text) (cmd : ℤ)
      → Uses r 0 (switch (send_command (suc depth)) netlink line cmd) (λ _. 0)
  unfolding switch handle_limit_cmd
  switch-Uses netlink line cmd =
      let send = send_command (suc depth) in
      if-Uses r (int_eq cmd (pos backend_cmd_list))
        (λ _.
          bind-Uses r 0 (handle_list_cmd-Uses r netlink) (omega arith)
            λ out. pure-Uses r _ (omega arith))
        λ _.
          if-Uses r (int_eq cmd (pos cmd_limit))
            (λ _.
              bind-Uses r 0
                (serve_limit-Uses r send (send_command-Uses r (suc depth)) (limit_request line))
                (omega arith) λ out. pure-Uses r _ (omega arith))
            λ _.
              if-Uses r (int_eq cmd (pos backend_cmd_clean))
                (λ _.
                  bind-Uses r 0 (handle_clean_cmd-Uses r) (omega arith)
                    λ out. pure-Uses r _ (omega arith))
                λ _.
                  if-Uses r (int_eq cmd (pos backend_cmd_quit)) (λ _. pure-Uses r _ (omega arith))
                    λ _. pure-Uses r _ (omega arith)

  serve_number-Uses :
      (netlink : Netlink) (line : Text) (numbers : Option (List ℤ))
      → Uses r 0 (serve_number (send_command (suc depth)) netlink line numbers) (λ _. 0)
  unfolding serve_number
  serve_number-Uses netlink line none = pure-Uses r _ (omega arith)
  serve_number-Uses netlink line (some []) = pure-Uses r _ (omega arith)
  serve_number-Uses netlink line (some (cmd ∷ more)) = switch-Uses netlink line cmd

  serve-Uses :
      (netlinks : Text → Netlink) (fuel : ℕ) (input : Text)
      → Uses r 0 (serve (send_command (suc depth)) netlinks fuel input) (λ _. 0)
  unfolding serve serve_line
  serve-Uses netlinks zero input = wait-Uses r
  serve-Uses netlinks (suc fuel) [] = pure-Uses r _ (omega arith)
  serve-Uses netlinks (suc fuel) (c ∷ input) =
      let (line, later) = fgets line_room (c ∷ input) in
      bind-Uses r 0 (serve_number-Uses (netlinks later) line (scan_longs 1 line)) (omega arith)
        (after_command-Uses r _ (serve-Uses netlinks fuel later))

  run_privileged-Uses :
      (netlinks : Text → Netlink) (input : Text)
      → Uses r 0 (run_privileged (send_command (suc depth)) netlinks input) (λ _. 0)
  unfolding run_privileged
  run_privileged-Uses netlinks input = bind-Uses r 0 (ratelimit_init-Uses r) (omega arith) (elim [
    | ratelimit_ok ↦
        bind-Uses r 0 (serve-Uses netlinks (suc (length input)) input) (omega arith)
          λ out. pure-Uses r _ (omega arith)
    | _ ↦ pure-Uses r _ (omega arith)
  ])

module _ (depth : ℕ) (netlinks : Text → Netlink)
    (answered : (later : Text) → get_network_processes (netlinks later) ≢ none) where
  switch-Returns :
      (later line : Text) (cmd : ℤ)
      → Returns in_client (switch (send_command (suc depth)) (netlinks later) line cmd)
  unfolding switch handle_limit_cmd
  switch-Returns later line cmd =
      let P = in_client in
      if-Returns P (int_eq cmd (pos backend_cmd_list))
        (λ _.
          bind-Returns P (handle_list_cmd-Returns P (netlinks later) (answered later))
            λ out. pure-Returns P _)
        λ _.
          if-Returns P (int_eq cmd (pos cmd_limit))
            (λ _.
              bind-Returns P
                (serve_limit-Returns P (send_command (suc depth)) (send_command-client depth)
                  (limit_request line))
                λ out. pure-Returns P _)
            λ _.
              if-Returns P (int_eq cmd (pos backend_cmd_clean))
                (λ _. bind-Returns P (handle_clean_cmd-Returns P) λ out. pure-Returns P _)
                λ _.
                  if-Returns P (int_eq cmd (pos backend_cmd_quit)) (λ _. pure-Returns P _)
                    λ _. pure-Returns P _

  serve_number-Returns :
      (later line : Text) (numbers : Option (List ℤ))
      → Returns in_client (serve_number (send_command (suc depth)) (netlinks later) line numbers)
  unfolding serve_number
  serve_number-Returns later line none = pure-Returns in_client _
  serve_number-Returns later line (some []) = pure-Returns in_client _
  serve_number-Returns later line (some (cmd ∷ more)) = switch-Returns later line cmd

  serve-Returns :
      (fuel : ℕ) (input : Text)
      → length input < fuel
      → Returns in_client (serve (send_command (suc depth)) netlinks fuel input)
  unfolding serve serve_line
  serve-Returns zero input h = absurd (omega arith)
  serve-Returns (suc fuel) [] h = pure-Returns in_client _
  serve-Returns (suc fuel) (c ∷ input) h =
      let (line, later) = fgets line_room (c ∷ input) in
      bind-Returns in_client (serve_number-Returns later line (scan_longs 1 line))
        (after_command-Returns in_client _ (serve-Returns fuel later (fgets_fuel fuel c input h)))

  run_privileged-Returns :
      (input : Text) → Returns in_client (run_privileged (send_command (suc depth)) netlinks input)
  unfolding run_privileged
  run_privileged-Returns input = bind-Returns in_client (ratelimit_init-Returns in_client) (elim [
    | ratelimit_ok ↦
        bind-Returns in_client (serve-Returns (suc (length input)) input (omega arith))
          λ out. pure-Returns in_client _
    | _ ↦ pure-Returns in_client _
  ])

-- Where the kernel ends every dump of the sockets, a session of the privileged process that goes on as
-- the parent after every `fork` ends on every input, whatever the lines say and whatever the calls
-- answer, and has then released every resource of the ledger that it has acquired, the netlink socket and
-- the list of each list command among them; what the search in /proc opens is not in the ledger.
pub run_privileged-IsBalanced :
    (r : Resource) (depth : ℕ) (netlinks : Text → Netlink) (input : Text) (p : Process)
    → ((later : Text) → get_network_processes (netlinks later) ≢ none)
    → p.is_monitor_process ≡ false
    → ((t : Trace) → is_zero (p.env t Call.fork) ≡ false)
    → IsBalanced r p (run_privileged (send_command (suc depth)) netlinks input p)
run_privileged-IsBalanced r depth netlinks input p answered client parent =
    balance p (run_privileged-Uses r depth netlinks input)
      (run_privileged-Returns depth netlinks answered input) (client, parent)
