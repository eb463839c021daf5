-- ===== src/Gui/Reads.antt =====
-- gui/backend.c: what the functions of the client read from the output of the privileged process.
use pidnl.Base.{
  ℕ, zero, suc, ◌*◌, ◌≤◌, ◌≡◌, refl, sym, ap, ◌∙◌, ℤ, pos, Bool, false, List, [], ◌∷◌, ◌++◌, Text,
  length, Option, none, some, decimal, arith, append_assoc, append_nil, ◌==◌,
}
use pidnl.Cstd.{int_max, is_digit}
use pidnl.Gui.Glib.{Glib, IsGlib, Pipe, normal, plain, IsLine, plain-decimal}
use pidnl.Gui.{response_ok, response_error, limit_line}
use pidnl.Gui.Client.{
  Backend, command_line, parse_protocol_int, read_lines, line_count, read_list, ask, responds,
  read_response, backend_set_limit,
}
use pidnl.Gui.Server.{ListRow, row_text, rows_text, list_text, failed_list}
use pidnl.Gui.Lines.{AreShown, IsShown, first_line, first_line-IsLine, row_text-append}

abbrev pub pipe_of : Text → Bool → Pipe
pipe_of bytes closed = record { bytes = bytes; closed = closed }

two_more : (n : ℕ) → suc n * 2 ≡ suc (suc (n * 2))
two_more n = omega arith

line_count_pos : (n : ℕ) → n * 2 ≤ int_max → line_count (pos n) ≡ n * 2
unfolding line_count
line_count_pos zero h = refl
line_count_pos (suc n) h = ground arith

-- A backend between two commands.
abbrev pub connected : ℤ → Text → Text → Bool → Backend
connected pid written bytes closed = record {
  pid = pid;
  stdin_channel = some written;
  stdout_channel = some (pipe_of bytes closed);
}

-- The answer of a function that asks is the one read, if it is.
pub ask-answer :
    {A : Type 0} (absent : A) (cmd : Text) (answer : Pipe → Option (A × Pipe)) (pid : ℤ)
    (written bytes rest : Text) (closed : Bool) (a : A)
    → answer (pipe_of bytes closed) ≡ some (a, pipe_of rest closed)
    → ask absent cmd answer (some (connected pid written bytes closed))
      ≡ some (a, some (connected pid (written ++ cmd) rest closed))
ask-answer absent cmd answer pid written bytes rest closed a e = rw (e)

pub ask-none :
    {A : Type 0} (absent : A) (cmd : Text) (answer : Pipe → Option (A × Pipe)) (pid : ℤ)
    (written bytes : Text) (closed : Bool)
    → answer (pipe_of bytes closed) ≡ none
    → ask absent cmd answer (some (connected pid written bytes closed)) ≡ none
ask-none absent cmd answer pid written bytes closed e = rw (e)

module _ (g : Glib) (laws : IsGlib g) where
  -- A response is a number in a line.
  pub parse_protocol_int-command_line :
      (n : ℕ) → n ≤ int_max → parse_protocol_int g (some (command_line n)) ≡ pos n
  unfolding parse_protocol_int command_line is_digit
  parse_protocol_int-command_line n h =
      rw (laws.strtoll_decimal n (10 ∷ []) (omega arith) refl) (ground arith)

  pub read_command_line :
      (n : ℕ) (rest : Text) (closed : Bool)
      → g.read_line (pipe_of (command_line n ++ rest) closed)
        ≡ some (normal (command_line n), pipe_of rest closed)
  unfolding command_line
  read_command_line n rest closed =
      ap (λ s. g.read_line (pipe_of s closed)) (append_assoc (decimal n) (10 ∷ []) rest)
      ∙ laws.read_line_whole (decimal n) rest closed (plain-decimal n)

  read_lines-line :
      (n : ℕ) (response line rest : Text) (closed : Bool)
      → IsLine line
      → read_lines g (suc n) response (pipe_of (line ++ (10 ∷ rest)) closed)
        ≡ read_lines g n (response ++ (line ++ (10 ∷ []))) (pipe_of rest closed)
  unfolding read_lines
  read_lines-line n response line rest closed h =
      rw (read_lines, laws.read_line_whole line rest closed h)

  read_lines-row :
      (n : ℕ) (response rest : Text) (row : ListRow) (closed : Bool)
      → IsShown row
      → read_lines g (suc (suc n)) response (pipe_of (row_text row ++ rest) closed)
        ≡ read_lines g n (response ++ row_text row) (pipe_of rest closed)
  unfolding row_text first_line
  read_lines-row n response rest row closed v =
      let path = row.info.exe_path in
      ap (λ s. read_lines g (suc (suc n)) response (pipe_of s closed)) (row_text-append row rest)
      ∙ (read_lines-line (suc n) response (first_line row) _ closed (first_line-IsLine row v)
          ∙ (read_lines-line n _ path rest closed v.ordinary.path_line
              ∙ ap (λ s. read_lines g n s (pipe_of rest closed))
                  (append_assoc response (first_line row ++ (10 ∷ [])) (path ++ (10 ∷ []))
                    ∙ ap (λ s. response ++ s) (append_assoc (first_line row) (10 ∷ []) _))))

  read_lines-rows_text :
      (response rest : Text) (rows : List ListRow) (closed : Bool)
      → AreShown rows
      → read_lines g (length rows * 2) response (pipe_of (rows_text rows ++ rest) closed)
        ≡ some (response ++ rows_text rows, pipe_of rest closed)
  unfolding rows_text read_lines
  read_lines-rows_text response rest [] closed v = rw (append_nil response)
  read_lines-rows_text response rest (row ∷ rows) closed (v, vs) =
      ap (λ s. read_lines g (suc (length rows) * 2) response (pipe_of s closed))
        (append_assoc (row_text row) (rows_text rows) rest)
      ∙ (ap
            (λ n.
              read_lines g n response (pipe_of (row_text row ++ (rows_text rows ++ rest)) closed))
            (two_more (length rows))
          ∙ (read_lines-row (length rows * 2) response _ row closed v
              ∙ (read_lines-rows_text (response ++ row_text row) rest rows closed vs
                  ∙ ap (λ s. some (s, pipe_of rest closed))
                      (append_assoc response (row_text row) (rows_text rows)))))

  pub read_list-list_text :
      (rest : Text) (rows : List ListRow) (closed : Bool)
      → AreShown rows
      → length rows * 2 ≤ int_max
      → read_list g (pipe_of (list_text rows ++ rest) closed)
        ≡ some (some (list_text rows), pipe_of rest closed)
  unfolding read_list list_text
  read_list-list_text rest rows closed v h =
      let first = read_command_line (length rows) (rows_text rows ++ rest) closed in
      let number = parse_protocol_int-command_line (length rows) (omega arith) in
      let lines = read_lines-rows_text (command_line (length rows)) rest rows closed v in
      rw (
        append_assoc (command_line (length rows)) (rows_text rows) rest,
        read_list,
        first,
        number,
        line_count_pos (length rows) h,
        lines,
      )

  pub read_list-failed_list : read_list g (pipe_of failed_list false) ≡ none
  unfolding read_list read_lines line_count plain
  read_list-failed_list =
      let first = read_command_line response_error [] false in
      let number = parse_protocol_int-command_line response_error (omega arith) in
      let waits = laws.read_line_waits [] refl in
      rw (read_list, sym (append_nil failed_list), first, number, waits)

  pub read_response-command_line :
      (n : ℕ) (rest : Text) (closed : Bool)
      → n ≤ int_max
      → read_response g (pipe_of (command_line n ++ rest) closed)
        ≡ some (n == response_ok, pipe_of rest closed)
  unfolding read_response
  read_response-command_line n rest closed h = rw (
    read_response,
    read_command_line n rest closed,
    responds,
    parse_protocol_int-command_line n h,
  )

  -- The client of a command for limits returns whether the response in the pipe is success.
  pub backend_set_limit-command_line :
      (pid upload download n : ℕ) (child : ℤ) (written rest : Text) (closed : Bool)
      → n ≤ int_max
      → backend_set_limit g pid upload download
          (some (connected child written (command_line n ++ rest) closed))
        ≡ some (
          n == response_ok,
          some (connected child (written ++ limit_line pid upload download) rest closed),
        )
  unfolding backend_set_limit
  backend_set_limit-command_line pid upload download n child written rest closed h =
      ask-answer false (limit_line pid upload download) (read_response g) child written
        (command_line n ++ rest) rest closed (n == response_ok)
        (read_response-command_line n rest closed h)
