-- ===== src/Gui/Shown.antt =====
-- gui/processes.c: the items that the rows printed by gui/main.c become.
use pidnl.Base.{
  ℕ, zero, suc, ◌+◌, ◌≤◌, ◌≡◌, refl, ap, ◌∙◌, ℤ, pos, Bool, true, false, List, [], ◌∷◌, ◌++◌, Text,
  take, take_all, length, Option, none, some, decimal, decimal_int, Bool-cases, inl, inr, arith,
  digits, append_assoc, append_nil, is_zero, not, ◌/◌, ◌%◌, if◌then◌else◌,
}
use pidnl.Cstd.{skip_space, is_space, int_max, uint32_max, is_digit}
use pidnl.Cstd.Laws.{EndsNumber, strtol-decimal, strtoul-decimal, skip_space-decimal}
use pidnl.Gui.Glib.{Glib, IsGlib, plain, IsLine, pieces-line, plain-decimal}
use pidnl.Gui.Client.{command_line}
use pidnl.Gui.Lines.{IsShown, AreShown, first_line, row_lines, pieces-rows_text}
use pidnl.Gui.Server.{ListRow, flag, row_tail, rows_text, list_text}
use pidnl.Gui.Icons.{Desktop, lookup_icon}
use pidnl.Gui.Rows.{
  PidnlProcess, Scanned, and_then, scan_int, scan_uint, until_newline, scan_name, scan_row,
  protocols_of, pidnl_process_of, with_row, read_rows, is_nil, is_count, populate_lines,
  populate_store_from_raw,
}

-- The item of a process with this name.
unfoldable pub item_of : Desktop → ListRow → Text → PidnlProcess
unfolding protocols_of lookup_icon
item_of desktop row name = record {
  name = name;
  pid = row.info.pid;
  connections = pos row.info.num_connections;
  protocols = protocols_of row.info.has_tcp row.info.has_udp;
  exe_path = row.info.exe_path;
  icon = lookup_icon desktop row.info.exe_path name row.info.pid;
  upload_kbps = row.upload_kbps;
  download_kbps = row.download_kbps;
}

-- A name without white space in front, unless nothing is left of it.
abbrev pub named : Desktop → ListRow → Text → List PidnlProcess → List PidnlProcess
named desktop row [] items = items
named desktop row (c ∷ name) items = item_of desktop row (c ∷ name) ∷ items

-- The items of all rows, in their order.
unfoldable pub shown : Desktop → List ListRow → List PidnlProcess
unfolding item_of skip_space
shown desktop [] = []
shown desktop (row ∷ rows) =
    named desktop row (skip_space row.info.process_name) (shown desktop rows)

scan_int-decimal :
    (n : ℕ) (rest : Text)
    → n ≤ int_max
    → EndsNumber rest
    → scan_int (decimal n ++ rest) ≡ some (pos n, rest)
unfolding scan_int
scan_int-decimal n rest h e =
    rw (skip_space-decimal n rest, strtol-decimal n rest (omega arith) e, scan_int) (ground arith)

scan_int-space : (s : Text) → scan_int (b' ' ∷ s) ≡ scan_int s
unfolding scan_int skip_space
scan_int-space s = refl

scan_uint-decimal :
    (n : ℕ) (rest : Text)
    → n ≤ uint32_max
    → EndsNumber rest
    → scan_uint (decimal n ++ rest) ≡ some (n, rest)
unfolding scan_uint
scan_uint-decimal n rest h e =
    rw (skip_space-decimal n rest, strtoul-decimal n rest (omega arith) e, scan_uint) (ground arith)

scan_uint-space : (s : Text) → scan_uint (b' ' ∷ s) ≡ scan_uint s
unfolding scan_uint skip_space
scan_uint-space s = refl

until_newline-plain : (s : Text) → IsLine s → until_newline s ≡ s
unfolding until_newline plain
until_newline-plain [] h = refl
until_newline-plain (c ∷ s) h = ground (arith, until_newline-plain s)

skip_space-plain :
    (s : Text) → IsLine s → IsLine (skip_space s) × (length (skip_space s) ≤ length s)
unfolding skip_space plain
skip_space-plain [] h = (refl, omega arith)
skip_space-plain (c ∷ s) h = elim (Bool-cases (is_space c)) [
  | inl space ↦
      let (line, less) = skip_space-plain s (ground arith) in rw (space) (line, omega (arith, less))
  | inr other ↦ rw (other) (h, omega arith)
]

next_int :
    (n : ℕ) (rest : Text)
    → n ≤ int_max
    → EndsNumber rest
    → scan_int (b' ' ∷ (decimal n ++ rest)) ≡ some (pos n, rest)
next_int n rest h e = scan_int-space _ ∙ scan_int-decimal n rest h e

next_uint :
    (n : ℕ) (rest : Text)
    → n ≤ uint32_max
    → EndsNumber rest
    → scan_uint (b' ' ∷ (decimal n ++ rest)) ≡ some (n, rest)
next_uint n rest h e = scan_uint-space _ ∙ scan_uint-decimal n rest h e

flag-le : (b : Bool) → flag b ≤ int_max
flag-le true = omega arith
flag-le false = omega arith

pass :
    {A B : Type 0} {o : Option (A × Text)} {a : A} {rest : Text} (f : A → Text → Option B)
    → o ≡ some (a, rest)
    → and_then o f ≡ f a rest
pass f e = ap (λ o. and_then o f) e

nonempty : Text → Option Text
nonempty [] = none
nonempty (c ∷ s) = some (c ∷ s)

scan_name-plain :
    (name : Text)
    → IsLine name
    → length name ≤ 255
    → scan_name (b' ' ∷ name) ≡ nonempty (skip_space name)
unfolding scan_name skip_space nonempty
scan_name-plain name h k =
    let (line, less) = skip_space-plain name h in
    let same = until_newline-plain (skip_space name) line in
    let whole = take_all 255 (skip_space name) (omega (arith, less)) in
    ap (λ s. nonempty (take 255 s)) same ∙ ap nonempty whole

scanned : ℤ → ListRow → Option Text → Option Scanned
scanned pid row none = none
scanned pid row (some name) = some (record {
  pid = pid;
  connections = pos row.info.num_connections;
  has_tcp = pos (flag row.info.has_tcp);
  has_udp = pos (flag row.info.has_udp);
  upload_kbps = row.upload_kbps;
  download_kbps = row.download_kbps;
  name = name;
})

scan_row-row_tail :
    (row : ListRow)
    → IsShown row
    → scan_row (first_line row)
      ≡ scanned row.info.pid row (nonempty (skip_space row.info.process_name))
unfolding scan_row row_tail scanned decimal_int is_digit first_line
scan_row-row_tail row v = rw (v.ordinary.pid_is) (
    pass _ (scan_int-decimal v.ordinary.number _ v.ordinary.pid_fits refl)
    ∙ (pass _ (next_int row.info.num_connections _ v.ordinary.connections_fit refl)
        ∙ (pass _ (next_int (flag row.info.has_tcp) _ (flag-le row.info.has_tcp) refl)
            ∙ (pass _ (next_int (flag row.info.has_udp) _ (flag-le row.info.has_udp) refl)
                ∙ (pass _ (next_uint row.upload_kbps _ v.upload_fits refl)
                    ∙ (pass _ (next_uint row.download_kbps _ v.download_fits refl)
                        ∙ ap (scanned (pos v.ordinary.number) row) (
                            scan_name-plain row.info.process_name v.ordinary.name_line
                              v.ordinary.name_fits)))))))

flag_set : (b : Bool) → not (is_zero (pos (flag b))) ≡ b
flag_set true = refl
flag_set false = refl

with_row-scanned :
    (desktop : Desktop) (row : ListRow) (name : Text) (items : List PidnlProcess)
    → with_row desktop (scanned row.info.pid row (nonempty name)) row.info.exe_path items
      ≡ named desktop row name items
unfolding with_row scanned nonempty item_of pidnl_process_of
with_row-scanned desktop row [] items = refl
with_row-scanned desktop row (c ∷ name) items =
    rw (flag_set row.info.has_tcp, flag_set row.info.has_udp)

read_rows-row_lines :
    (desktop : Desktop) (rows : List ListRow)
    → AreShown rows
    → read_rows desktop (length rows) (row_lines rows) ≡ shown desktop rows
unfolding read_rows row_lines shown
read_rows-row_lines desktop [] v = refl
read_rows-row_lines desktop (row ∷ rows) (v, vs) =
    rw (scan_row-row_tail row v, read_rows-row_lines desktop rows vs)
      (with_row-scanned desktop row _ (shown desktop rows))

digits_nonempty : (fuel n c : ℕ) (out : Text) → is_nil (digits fuel n (c ∷ out)) ≡ false
unfolding digits
digits_nonempty zero n c out = refl
digits_nonempty (suc fuel) n c out =
    ground (arith, digits_nonempty fuel (n / 10) (b'0' + n % 10) (c ∷ out))

decimal_nonempty : (n : ℕ) → is_nil (decimal n) ≡ false
unfolding decimal digits
decimal_nonempty n = ground (arith, digits_nonempty n (n / 10) (b'0' + n % 10) [])

-- No process is looked for behind the count 0.
read_counted :
    (desktop : Desktop) (n : ℕ) (lines : List Text)
    → n ≤ int_max
    → (if is_count (record { value = pos n; rest = []; moved = true })
        then read_rows desktop n lines
        else [])
      ≡ read_rows desktop n lines
unfolding read_rows
read_counted desktop zero lines h = refl
read_counted desktop (suc n) lines h = ground arith

read_first :
    (g : Glib) (desktop : Desktop) (n : ℕ) (lines : List Text)
    → IsGlib g
    → n ≤ int_max
    → populate_lines g desktop (decimal n ∷ lines) ≡ read_rows desktop n lines
unfolding populate_lines
read_first g desktop n lines laws h =
    let read = rw (append_nil (decimal n)) at (laws.strtoll_decimal n [] (omega arith) tt) in
    rw (decimal_nonempty n, read) (read_counted desktop n lines h)

-- What `backend_list` hands over becomes the printed processes in their order: the PID, the
-- connections, the protocols, the path and both limits of each, and its name without the white space
-- in front of it. A process without any other byte in its name is left out.
pub populate_store_from_raw-list_text :
    (g : Glib) (desktop : Desktop) (rows : List ListRow)
    → IsGlib g
    → AreShown rows
    → length rows ≤ int_max
    → populate_store_from_raw g desktop (list_text rows) ≡ shown desktop rows
unfolding populate_store_from_raw list_text command_line
populate_store_from_raw-list_text g desktop rows laws v h =
    let whole = append_assoc (decimal (length rows)) (10 ∷ []) (rows_text rows) in
    let split = laws.strsplit_pieces (decimal (length rows)) (rows_text rows) in
    let lines =
      pieces-line (decimal (length rows)) (rows_text rows) (plain-decimal (length rows)) in
    ap (populate_lines g desktop) (
      ap g.strsplit_lines whole
      ∙ (split ∙ (lines ∙ ap (λ ls. decimal (length rows) ∷ ls) (pieces-rows_text rows v))))
    ∙ (read_first g desktop (length rows) (row_lines rows) laws h
        ∙ read_rows-row_lines desktop rows v)
