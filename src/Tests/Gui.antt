-- ===== src/Tests/Gui.antt =====
-- Runs of the graphical program's two sides at concrete inputs.
use pidnl.Base.{
  ◌≡◌, ◌≢◌, refl, pos, true, false, List, [], ◌∷◌, ◌++◌, Text, codes, none, some, ◌==◌, map,
  decimal, text_eq, arith,
}
use pidnl.System.{Process, done}
use pidnl.System.Ledger.{descriptor}
use pidnl.System.Balance.{IsBalanced}
use pidnl.Monitor.Client.{send_command}
use pidnl.Discovery.Query.{Netlink}
use pidnl.Gui.{backend_cmd_list, response_ok, limit_line, limit_request, handle_limit_cmd}
use pidnl.Gui.Client.{Backend, command_line, backend_list}
use pidnl.Gui.Server.{ListRow, list_text, failed_list, handle_list_cmd, run_privileged}
use pidnl.Gui.Session.{run_privileged-IsBalanced}
use pidnl.Gui.Icons.{Desktop}
use pidnl.Gui.Rows.{PidnlProcess, populate_store_from_raw, find_process_by_pid}
use pidnl.Gui.Lines.{IsOrdinary}
use pidnl.Gui.Shown.{shown}
use pidnl.Gui.Reads.{connected}
use pidnl.Gui.Refresh.{on_refresh_clicked-shown, backend_list-failed_list}
use pidnl.Gui.Entry.{
  parse_limit_value, entry_text, Entry, set_entry_to_value, is_upload, limit_of, apply_limit,
}
use pidnl.Gui.Entered.{parse_limit_value-entry_text}
use pidnl.Gui.Window.{on_refresh_clicked}
use pidnl.Gui.Untouched.{bound, apply_limit-untouched}
use pidnl.Gui.Applied.{applied_item, view_of, apply_limit-shown}
use pidnl.Tests.{client, netlink, one_process, found_4242}
use pidnl.Tests.Glib.{plain_glib, plain_glib-IsGlib}
use pidnl.Gui.Protocol.{limit_request-limit_line}
use pidnl.Gui.Balance.{handle_limit_cmd-IsBalanced}
use pidnl.Ratelimit.Names.{unlimited}

abbrev pub desktop : Desktop
desktop = record {
  all_apps =
      record { executable = some (codes "/usr/sbin/nginx"); icon = some 7; flatpak_id = none } ∷ [];
  cgroup_of = λ pid. none;
}

abbrev netlinks : Text → Netlink
netlinks later = netlink

-- A list, a line that is no command, a limit and the end of the input.
abbrev session : Text
session = codes "0" ++ (10 ∷ (codes "x" ++ (10 ∷ limit_line 4242 1000 2000)))

run_privileged-IsBalanced_example :
    IsBalanced (descriptor (pos 9)) client (run_privileged (send_command 1) netlinks session client)
run_privileged-IsBalanced_example =
    run_privileged-IsBalanced (descriptor (pos 9)) 0 netlinks session client
      (λ later e. absurd (cc (found_4242, e))) refl (λ t. refl)

pub nginx-IsOrdinary : IsOrdinary (record {
  pid = pos 4242;
  process_name = codes "nginx";
  exe_path = [];
  num_connections = 1;
  has_tcp = true;
  has_udp = false;
})
unfolding pidnl.Gui.Glib.plain
nginx-IsOrdinary = record {
  number = 4242;
  pid_is = refl;
  pid_fits = omega arith;
  connections_fit = omega arith;
  name_line = refl;
  name_fits = omega arith;
  path_line = refl;
}

on_refresh_clicked-shown_example :
    (rows : List ListRow) × (q : Process) × (map ListRow.info rows ≡ one_process.processes)
    × (handle_list_cmd netlink client ≡ (done (list_text rows), q))
    × (on_refresh_clicked plain_glib desktop (record {
      backend = some (connected (pos 77) [] (list_text rows ++ []) false);
      items = [];
    })
        ≡ some (record {
          backend = some (connected (pos 77) ([] ++ command_line backend_cmd_list) [] false);
          items = shown desktop rows;
        }))
on_refresh_clicked-shown_example =
    on_refresh_clicked-shown plain_glib desktop netlink one_process client (pos 77) [] [] false []
      plain_glib-IsGlib found_4242 (nginx-IsOrdinary, tt) (omega arith)

backend_list-failed_list_example :
    backend_list plain_glib (some (connected (pos 77) [] failed_list false)) ≡ none
backend_list-failed_list_example = backend_list-failed_list plain_glib (pos 77) [] plain_glib-IsGlib

abbrev nginx_row : ListRow
nginx_row = record {
  info = record {
    pid = pos 4242;
    process_name = codes "nginx";
    exe_path = [];
    num_connections = 1;
    has_tcp = true;
    has_udp = false;
  };
  upload_kbps = 1000;
  download_kbps = 4294967295;
}

parse_limit_value-entry_text_example :
    parse_limit_value plain_glib (plain_glib.strstrip (entry_text 1000)) ≡ some 1000
parse_limit_value-entry_text_example =
    parse_limit_value-entry_text plain_glib 1000 plain_glib-IsGlib (omega arith)

abbrev nginx_item : PidnlProcess
nginx_item = record {
  name = codes "nginx";
  pid = pos 4242;
  connections = pos 1;
  protocols = codes "TCP";
  exe_path = [];
  icon = pidnl.Gui.Icons.app_icon 7;
  upload_kbps = 1000;
  download_kbps = 4294967295;
}

-- The limit for downloads is typed.
abbrev entry : Entry
entry = record { pid = pos 4242; direction = 1; text = codes " 500 " }

nginx_stored : find_process_by_pid (nginx_item ∷ []) entry.pid ≡ some nginx_item
unfolding find_process_by_pid
nginx_stored = refl

apart : pos 1 ≢ entry.pid
apart e = absurd (cc e)

apply_limit-shown_example :
    let upload = is_upload entry.direction in
    let parsed = parse_limit_value plain_glib (plain_glib.strstrip entry.text) in
    let item' = applied_item upload (1 == response_ok) parsed nginx_item in
    (backend : Backend) × (store' : List PidnlProcess) × (apply_limit plain_glib entry
        (view_of (connected (pos 77) [] (command_line 1 ++ []) false) (nginx_item ∷ []))
      ≡ some (set_entry_to_value entry (limit_of upload item'), view_of backend store'))
    × (find_process_by_pid store' entry.pid ≡ some item')
    × (find_process_by_pid store' (pos 1) ≡ find_process_by_pid (nginx_item ∷ []) (pos 1))
apply_limit-shown_example =
    apply_limit-shown plain_glib entry (pos 77) [] [] false 1 (nginx_item ∷ []) nginx_item (pos 1)
      plain_glib-IsGlib refl nginx_stored (omega arith) apart

apply_limit-untouched_example :
    let entry' = bound (is_upload entry.direction) nginx_item entry in
    (backend : Backend) × (store' : List PidnlProcess) × (apply_limit plain_glib entry'
        (view_of (connected (pos 77) [] (command_line 2 ++ []) false) (nginx_item ∷ []))
      ≡ some (entry', view_of backend store'))
    × (find_process_by_pid store' nginx_item.pid ≡ some nginx_item)
    × (find_process_by_pid store' (pos 1) ≡ find_process_by_pid (nginx_item ∷ []) (pos 1))
apply_limit-untouched_example =
    apply_limit-untouched plain_glib entry (pos 77) [] [] false 2 (nginx_item ∷ []) nginx_item
      (pos 1) plain_glib-IsGlib refl (omega arith) nginx_stored (omega arith) apart

-- What the entry makes of it.
typed : parse_limit_value plain_glib (plain_glib.strstrip entry.text) ≡ some 500
unfolding parse_limit_value plain_glib text_eq
typed = refl

-- The row that is printed, and the item that it becomes.
printed :
    list_text (nginx_row ∷ [])
    ≡ codes "1" ++ (10 ∷ (codes "4242 1 1 0 1000 4294967295 nginx" ++ (10 ∷ 10 ∷ [])))
unfolding list_text decimal
printed = refl

item_shown :
    populate_store_from_raw plain_glib desktop (list_text (nginx_row ∷ [])) ≡ nginx_item ∷ []
unfolding populate_store_from_raw plain_glib list_text decimal text_eq pidnl.Cstd.is_digit
item_shown = refl

-- A process without a name is not shown.
nameless_row : ListRow
nameless_row = record {
  info = record {
    pid = pos 4242;
    process_name = [];
    exe_path = [];
    num_connections = 1;
    has_tcp = true;
    has_udp = false;
  };
  upload_kbps = 1000;
  download_kbps = 4294967295;
}

nameless_hidden : shown desktop (nameless_row ∷ nginx_row ∷ []) ≡ shown desktop (nginx_row ∷ [])
unfolding shown nameless_row
nameless_hidden = refl

limit_request-limit_line_example :
    limit_request (limit_line 4242 1000 unlimited)
    ≡ some (record { pid = pos 4242; upload = pos 1000; download = pos unlimited })
limit_request-limit_line_example =
    limit_request-limit_line 4242 1000 unlimited (omega arith) (omega arith) (omega arith)
      (omega arith)

handle_limit_cmd-IsBalanced_example :
    IsBalanced
      (descriptor (pos 5))
      client
      (handle_limit_cmd (send_command 1) (limit_line 4242 1000 unlimited) client)
handle_limit_cmd-IsBalanced_example =
    handle_limit_cmd-IsBalanced (descriptor (pos 5)) 0 (limit_line 4242 1000 unlimited) client refl
      (λ t. refl)
