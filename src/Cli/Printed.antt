-- ===== src/Cli/Printed.antt =====
-- cli/main.c: the lines of the table that `list` prints.
use pidnl.Base.{
  ℕ, zero, suc, ◌-◌, ◌+◌, ◌/◌, ◌%◌, ◌≡◌, refl, ap, ◌∙◌, ℤ, pos, negsuc, Bool, true, false, not,
  ◌&&◌, ◌==◌, List, [], ◌∷◌, ◌++◌, Text, Option, none, some, length, decimal, decimal_int, digits,
  map, pieces, arith,
}
use pidnl.System.{Process, Outcome, done, exited, running, M, pure, resume, ◌>>=◌, call}
use pidnl.Discovery.{ProcessInfo, ProcessList}
use pidnl.Discovery.Invariant.{printable, Used}
use pidnl.Ratelimit.Query.{Limits, get_rate_limits_from_cgroup}
use pidnl.Discovery.Query.{discovery_ok, Netlink, get_network_processes}
use pidnl.Discovery.Query.Invariant.{get_network_processes-IsList}
use pidnl.Cli.{Row, list_rows, list_limits, cmd_list}
use pidnl.Cli.Runs.{discover-ok}
use pidnl.Cli.Parse.{format_limit}
use pidnl.Cli.Usage.{spaces, padded}
use pidnl.Cli.Print.{
  yes_no, or_unknown, columns, title_line, rule_line, process_line, process_lines,
  print_process_list,
}

unfoldable pub one_line : Text → Bool
one_line [] = true
one_line (c ∷ s) = not (c == 10) && one_line s

one_line-append : (s t : Text) → one_line s ≡ true → one_line t ≡ true → one_line (s ++ t) ≡ true
unfolding one_line
one_line-append [] t h k = k
one_line-append (c ∷ s) t h k = ground (arith, one_line-append s t)

one_line-pieces :
    (line rest : Text) → one_line line ≡ true → pieces (line ++ (10 ∷ rest)) ≡ line ∷ pieces rest
unfolding one_line pieces
one_line-pieces [] rest h = refl
one_line-pieces (c ∷ s) rest h = ground (arith, one_line-pieces s rest)

one_line-printable : (s : Text) → printable s ≡ true → one_line s ≡ true
unfolding one_line printable
one_line-printable [] h = refl
one_line-printable (c ∷ s) h = ground (arith, one_line-printable s)

one_line-digits :
    (fuel n : ℕ) (out : Text) → one_line out ≡ true → one_line (digits fuel n out) ≡ true
unfolding one_line digits
one_line-digits zero n out h = h
one_line-digits (suc fuel) n out h =
    ground (arith, one_line-digits fuel (n / 10) ((b'0' + n % 10) ∷ out))

one_line-decimal : (n : ℕ) → one_line (decimal n) ≡ true
unfolding one_line decimal
one_line-decimal n = one_line-digits (suc n) n [] refl

one_line-decimal_int : (n : ℤ) → one_line (decimal_int n) ≡ true
unfolding one_line decimal_int
one_line-decimal_int (pos n) = one_line-decimal n
one_line-decimal_int (negsuc n) = one_line-decimal (suc n)

one_line-spaces : (n : ℕ) → one_line (spaces n) ≡ true
unfolding one_line spaces
one_line-spaces zero = refl
one_line-spaces (suc n) = one_line-spaces n

-- A column, its space and the columns behind it.
one_line-column :
    (width : ℕ) (s rest : Text)
    → one_line s ≡ true
    → one_line rest ≡ true
    → one_line (padded width s ++ (b' ' ∷ rest)) ≡ true
unfolding one_line padded
one_line-column width s rest h k =
    one_line-append (padded width s) (b' ' ∷ rest)
      (one_line-append s (spaces (width - length s)) h (one_line-spaces (width - length s))) k

one_line-format_limit : (kbps : ℕ) → one_line (format_limit kbps) ≡ true
unfolding one_line format_limit
one_line-format_limit kbps = ground (arith, one_line-decimal kbps)

one_line-yes_no : (b : Bool) → one_line (yes_no b) ≡ true
unfolding one_line
one_line-yes_no true = refl
one_line-yes_no false = refl

one_line-or_unknown : (path : Text) → printable path ≡ true → one_line (or_unknown path) ≡ true
unfolding one_line
one_line-or_unknown [] h = refl
one_line-or_unknown (c ∷ path) h = one_line-printable (c ∷ path) h

-- What a line of the table is made of holds no newline.
pub record IsRow (row : Row) : Type 0 where
  pub name_printable : printable row.process.process_name ≡ true
  pub path_printable : printable row.process.exe_path ≡ true
  pub upload_line : one_line row.upload ≡ true
  pub download_line : one_line row.download ≡ true

abbrev AreRows : List Row → Type 0
AreRows [] = Unit
AreRows (row ∷ rows) = IsRow row × AreRows rows

one_line-process_line : (row : Row) → IsRow row → one_line (process_line row) ≡ true
unfolding process_line columns one_line
one_line-process_line row v =
    let proc = row.process in
    one_line-column 8 (decimal_int proc.pid) _ (one_line-decimal_int proc.pid) (
      one_line-column 20 proc.process_name _ (one_line-printable proc.process_name v.name_printable)
        (one_line-column 10 (yes_no proc.has_tcp) _ (one_line-yes_no proc.has_tcp) (
          one_line-column 10 (yes_no proc.has_udp) _ (one_line-yes_no proc.has_udp) (
            one_line-column 12 row.upload _ v.upload_line (
              one_line-column 12 row.download (or_unknown proc.exe_path) v.download_line
                (one_line-or_unknown proc.exe_path v.path_printable))))))

pieces-process_lines :
    (rows : List Row)
    → AreRows rows
    → pieces (process_lines rows) ≡ map process_line rows ++ ([] ∷ [])
unfolding process_lines pieces
pieces-process_lines [] v = refl
pieces-process_lines (row ∷ rows) (v, vs) =
    one_line-pieces (process_line row) (process_lines rows) (one_line-process_line row v)
    ∙ ap (λ ls. process_line row ∷ ls) (pieces-process_lines rows vs)

pieces-print_process_list :
    (rows : List Row)
    → AreRows rows
    → pieces (print_process_list rows)
      ≡ title_line ∷ rule_line ∷ (map process_line rows ++ ([] ∷ []))
unfolding print_process_list title_line rule_line columns one_line padded spaces
pieces-print_process_list rows v =
    one_line-pieces title_line _ refl
    ∙ ap (λ ls. title_line ∷ ls)
        (one_line-pieces rule_line (process_lines rows) refl
          ∙ ap (λ ls. rule_line ∷ ls) (pieces-process_lines rows v))

-- If there are rows, they are one for each process, in order.
abbrev Lists : List ProcessInfo → Outcome (List Row) → Type 0
Lists infos (done rows) = AreRows rows × (map Row.process rows ≡ infos)
Lists infos (exited n) = Unit
Lists infos running = Unit

row_for : ProcessInfo → Limits → Row
row_for info limits = record {
  process = info;
  upload = format_limit limits.upload_kbps;
  download = format_limit limits.download_kbps;
}

row_for-IsRow :
    (info : ProcessInfo) (limits : Limits)
    → printable info.process_name ≡ true
    → printable info.exe_path ≡ true
    → IsRow (row_for info limits)
unfolding row_for
row_for-IsRow info limits h k = record {
  name_printable = h;
  path_printable = k;
  upload_line = one_line-format_limit limits.upload_kbps;
  download_line = one_line-format_limit limits.download_kbps;
}

add_row :
    (row : Row) (infos : List ProcessInfo) (o : Outcome (List Row) × Process)
    → IsRow row
    → Lists infos o.0
    → Lists (row.process ∷ infos) (resume (λ rows. pure (row ∷ rows)) o).0
add_row row infos (done rows, q) v (vs, e) = ((v, vs), ap (λ xs. row.process ∷ xs) e)
add_row row infos (exited n, q) v l = tt
add_row row infos (running, q) v l = tt

after_limits :
    (info : ProcessInfo) (infos : List ProcessInfo) (o : Outcome Limits × Process)
    → ((limits : Limits) → IsRow (row_for info limits))
    → ((p : Process) → Lists infos (list_rows infos p).0)
    → Lists
        (info ∷ infos)
        (resume (λ limits. list_rows infos >>= λ rows. pure (row_for info limits ∷ rows)) o).0
unfolding row_for
after_limits info infos (done limits, q) v l =
    add_row (row_for info limits) infos (list_rows infos q) (v limits) (l q)
after_limits info infos (exited n, q) v l = tt
after_limits info infos (running, q) v l = tt

list_rows-Lists :
    (infos : List ProcessInfo) (p : Process) → Used infos → Lists infos (list_rows infos p).0
unfolding list_rows row_for
list_rows-Lists [] p u = (tt, refl)
list_rows-Lists (info ∷ infos) p (one, protocol, name, path, u) =
    after_limits info infos (get_rate_limits_from_cgroup info.pid p)
      (λ limits. row_for-IsRow info limits name path) (λ q. list_rows-Lists infos q u)

kept_rows :
    (infos : List ProcessInfo) (m : List Row → M (List Row)) (o : Outcome (List Row) × Process)
    → ((rows : List Row) (q : Process) → (m rows q).0 ≡ done rows)
    → Lists infos o.0
    → Lists infos (resume m o).0
kept_rows infos m (done rows, q) k l = rw (k rows q) l
kept_rows infos m (exited n, q) k l = tt
kept_rows infos m (running, q) k l = tt

list_limits-Lists :
    (infos : List ProcessInfo) (upload download : Option ℕ) (p : Process)
    → Used infos
    → Lists infos (list_limits infos upload download p).0
unfolding list_limits call
list_limits-Lists infos (some upload) (some download) p u =
    kept_rows infos _ (list_rows infos p) (λ rows q. refl) (list_rows-Lists infos p u)
list_limits-Lists infos (some upload) none p u = tt
list_limits-Lists infos none (some download) p u = tt
list_limits-Lists infos none none p u = tt

-- The processes are found, and `cmd_list` returns. Then each process has a row, in their order, and
-- the lines of the table are the title, the rule and one line for each row: no name and no path of a
-- process, whatever it calls itself, ends its line or adds another.
pub cmd_list-lines :
    (netlink : Netlink) (found : ProcessList) (rows : List Row) (p q : Process)
    → get_network_processes netlink ≡ some (discovery_ok, found)
    → cmd_list netlink p ≡ (done rows, q)
    → (map Row.process rows ≡ found.processes)
      × (pieces (print_process_list rows)
          ≡ title_line ∷ rule_line ∷ (map process_line rows ++ ([] ∷ [])))
unfolding cmd_list call
cmd_list-lines netlink found rows p q e f =
    let used = (get_network_processes-IsList netlink discovery_ok found e).used in
    let all : Lists found.processes (cmd_list netlink p).0 =
      rw (discover-ok netlink found p e) (list_limits-Lists found.processes _ _ _ used) in
    let (rows_in_order, same) = rw (f) at all in
    (same, pieces-print_process_list rows rows_in_order)
