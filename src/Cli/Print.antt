-- ===== src/Cli/Print.antt =====
-- cli/main.c: the table that `list` prints.
use pidnl.Base.{Bool, true, false, List, [], ◌∷◌, ◌++◌, Text, codes, decimal_int}
use pidnl.Cli.Usage.{padded}
use pidnl.Cli.{Row}

abbrev pub yes_no : Bool → Text
yes_no true = codes "Yes"
yes_no false = codes "No"

abbrev pub or_unknown : Text → Text
or_unknown [] = codes "(unknown)"
or_unknown (c ∷ path) = c ∷ path

-- The seven columns of a line.
unfoldable pub columns : Text → Text → Text → Text → Text → Text → Text → Text
unfolding padded
columns pid name tcp udp up down executable =
    padded 8 pid
    ++ (b' '
        ∷ (padded 20 name
            ++ (b' '
                ∷ (padded 10 tcp
                    ++ (b' '
                        ∷ (padded 10 udp
                            ++ (b' '
                                ∷ (padded 12 up
                                    ++ (b' ' ∷ (padded 12 down ++ (b' ' ∷ executable)))))))))))

unfoldable pub title_line : Text
unfolding columns
title_line =
    columns (codes "PID") (codes "NAME") (codes "TCP") (codes "UDP") (codes "UP(KBPS)")
      (codes "DOWN(KBPS)") (codes "EXECUTABLE")

unfoldable pub rule_line : Text
unfolding columns
rule_line =
    columns (codes "---") (codes "----") (codes "---") (codes "---") (codes "--------")
      (codes "----------") (codes "----------")

unfoldable pub process_line : Row → Text
unfolding columns decimal_int
process_line row =
    let proc = row.process in
    columns (decimal_int proc.pid) proc.process_name (yes_no proc.has_tcp) (yes_no proc.has_udp)
      row.upload row.download (or_unknown proc.exe_path)

unfoldable pub process_lines : List Row → Text
unfolding process_line
process_lines [] = []
process_lines (row ∷ rows) = process_line row ++ (10 ∷ process_lines rows)

unfoldable pub print_process_list : List Row → Text
unfolding title_line rule_line process_lines
print_process_list rows = title_line ++ (10 ∷ (rule_line ++ (10 ∷ process_lines rows)))
