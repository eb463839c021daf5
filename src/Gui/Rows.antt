-- ===== src/Gui/Rows.antt =====
-- gui/processes.c: the items of the list, read from the text that `backend_list` returns, and the
-- orders of its columns.
use pidnl.Base.{
  ℕ, zero, suc, ◌-◌, ◌%◌, ◌^◌, ℤ, pos, negsuc, is_pos, is_zero, exceeds, to_ℕ, int_eq, ltb, Bool,
  true, false, not, ◌||◌, List, [], ◌∷◌, Text, codes, take, ◌==◌, Option, none, some, if◌then◌else◌,
}
use pidnl.Cstd.{skip_space, strtol, strtoul, int_max}
use pidnl.Gui.Glib.{Number, Glib}
use pidnl.Gui.Icons.{Icon, Desktop, lookup_icon}

-- `struct _PIDNLProcess`
pub record PidnlProcess : Type 0 where
  pub name : Text
  pub pid : ℤ
  pub connections : ℤ
  pub protocols : Text
  pub exe_path : Text
  pub icon : Icon
  pub upload_kbps : ℕ
  pub download_kbps : ℕ

-- The numbers and the name in the first line of a process.
pub record Scanned : Type 0 where
  pub pid : ℤ
  pub connections : ℤ
  pub has_tcp : ℤ
  pub has_udp : ℤ
  pub upload_kbps : ℕ
  pub download_kbps : ℕ
  pub name : Text

-- A `long` as an `int`: its low 32 bits.
abbrev pub int_of : ℤ → ℤ
int_of (pos n) =
    let low = n % 2 ^ 32 in if ltb low (2 ^ 31) then pos low else negsuc (2 ^ 32 - 1 - low)
int_of (negsuc n) =
    let low = n % 2 ^ 32 in if ltb low (2 ^ 31) then negsuc low else pos (2 ^ 32 - 1 - low)

-- `%d`
unfoldable pub scan_int : Text → Option (ℤ × Text)
unfolding skip_space strtol
scan_int text =
    let r = strtol (skip_space text) in if r.moved then some (int_of r.value, r.rest) else none

-- `%u`
unfoldable pub scan_uint : Text → Option (ℕ × Text)
unfolding skip_space strtoul
scan_uint text =
    let r = strtoul (skip_space text) in if r.moved then some (r.value % 2 ^ 32, r.rest) else none

-- The bytes in front of a newline.
unfoldable pub until_newline : Text → Text
until_newline [] = []
until_newline (c ∷ s) = let rest = until_newline s in if c == 10 then [] else c ∷ rest

-- `%255[^\n]`, which reads one byte at least.
unfoldable pub scan_name : Text → Option Text
unfolding skip_space until_newline
scan_name text = elim (take 255 (until_newline (skip_space text))) [
  | [] ↦ none
  | c ∷ name ↦ some (c ∷ name)
]

abbrev pub and_then : {A B : Type 0} → Option (A × Text) → (A → Text → Option B) → Option B
and_then none f = none
and_then (some (a, rest)) f = f a rest

-- `sscanf(line, "%d %d %d %d %u %u %255[^\n]", ...) == 7`
unfoldable pub scan_row : Text → Option Scanned
unfolding scan_int scan_uint scan_name
scan_row line = and_then (scan_int line) λ pid s1. and_then (scan_int s1) λ connections s2.
    and_then (scan_int s2) λ has_tcp s3. and_then (scan_int s3) λ has_udp s4.
      and_then (scan_uint s4) λ upload_kbps s5. and_then (scan_uint s5) λ download_kbps s6.
        elim (scan_name s6) [
          | none ↦ none
          | some name ↦ some (record {
            pid = pid;
            connections = connections;
            has_tcp = has_tcp;
            has_udp = has_udp;
            upload_kbps = upload_kbps;
            download_kbps = download_kbps;
            name = name;
          })
        ]

unfoldable pub protocols_of : Bool → Bool → Text
protocols_of true true = codes "TCP/UDP"
protocols_of true false = codes "TCP"
protocols_of false true = codes "UDP"
protocols_of false false = codes "-"

unfoldable pub pidnl_process_new : Text → ℤ → ℤ → Text → Text → Icon → ℕ → ℕ → PidnlProcess
pidnl_process_new name pid connections protocols exe_path icon upload_kbps download_kbps = record {
  name = name;
  pid = pid;
  connections = connections;
  protocols = protocols;
  exe_path = exe_path;
  icon = icon;
  upload_kbps = upload_kbps;
  download_kbps = download_kbps;
}

-- The item that `append_process_to_store` appends.
unfoldable pub pidnl_process_of : Desktop → Scanned → Text → PidnlProcess
unfolding protocols_of lookup_icon pidnl_process_new
pidnl_process_of desktop row exe_path =
    let protocols = protocols_of (not (is_zero row.has_tcp)) (not (is_zero row.has_udp)) in
    let icon = lookup_icon desktop exe_path row.name row.pid in
    pidnl_process_new row.name row.pid row.connections protocols exe_path icon row.upload_kbps
      row.download_kbps

-- A pair of lines adds an item to the rest, if the first line is one of a process.
unfoldable pub with_row : Desktop → Option Scanned → Text → List PidnlProcess → List PidnlProcess
unfolding pidnl_process_of
with_row desktop none exe_path items = items
with_row desktop (some row) exe_path items = pidnl_process_of desktop row exe_path ∷ items

-- The loop over the pairs of lines.
unfoldable pub read_rows : Desktop → ℕ → List Text → List PidnlProcess
unfolding scan_row with_row
read_rows desktop zero lines = []
read_rows desktop (suc n) (line ∷ exe_path ∷ lines) =
    with_row desktop (scan_row line) exe_path (read_rows desktop n lines)
read_rows desktop (suc n) _ = []

abbrev pub is_nil : {A : Type 0} → List A → Bool
is_nil [] = true
is_nil (a ∷ s) = false

-- What stands in the first line is the number of processes.
abbrev pub is_count : Number → Bool
is_count n =
    not (not n.moved || (not (is_nil n.rest) || (not (is_pos n.value) || exceeds n.value int_max)))

unfoldable pub populate_lines : Glib → Desktop → List Text → List PidnlProcess
unfolding read_rows
populate_lines g desktop [] = []
populate_lines g desktop (first ∷ lines) =
    let n = g.ascii_strtoll first in
    if is_nil first then [] else if is_count n then read_rows desktop (to_ℕ n.value) lines else []

-- The store is cleared first, so what it held before does not matter.
unfoldable pub populate_store_from_raw : Glib → Desktop → Text → List PidnlProcess
unfolding populate_lines
populate_store_from_raw g desktop raw = populate_lines g desktop (g.strsplit_lines raw)

unfoldable pub find_process_by_pid : List PidnlProcess → ℤ → Option PidnlProcess
find_process_by_pid [] pid = none
find_process_by_pid (item ∷ items) pid =
    let rest = find_process_by_pid items pid in if int_eq item.pid pid then some item else rest

unfoldable pub int_less : ℤ → ℤ → Bool
int_less (pos m) (pos n) = ltb m n
int_less (pos m) (negsuc n) = false
int_less (negsuc m) (pos n) = true
int_less (negsuc m) (negsuc n) = ltb n m

-- `(a > b) - (a < b)`
unfoldable pub compare_int : ℤ → ℤ → ℤ
unfolding int_less
compare_int a b = if int_less b a then pos 1 else if int_less a b then negsuc 0 else pos 0

unfoldable pub compare_name : Glib → PidnlProcess → PidnlProcess → ℤ
compare_name g a b = g.utf8_collate a.name b.name

unfoldable pub compare_pid : PidnlProcess → PidnlProcess → ℤ
unfolding compare_int
compare_pid a b = compare_int a.pid b.pid

unfoldable pub compare_connections : PidnlProcess → PidnlProcess → ℤ
unfolding compare_int
compare_connections a b = compare_int a.connections b.connections
