-- ===== src/Discovery.antt =====
-- lib/src/discovery.c: the list of processes with network connections, and how a process is added.
-- `/proc` is not part of the program: what it shows during a call is an argument.
pub mod Invariant
pub mod Inode
pub mod Query
pub mod Owned
use pidnl.Base.{
  ℕ, ◌+◌, ◌*◌, ◌-◌, ℤ, int_eq, Bool, true, false, not, ◌||◌, ◌&&◌, List, [], ◌∷◌, ◌++◌, Option,
  none, some, Text, ltb, leb, ◌==◌, length, take, if◌then◌else◌,
}

-- TS_COMM_LEN and PATH_MAX
abbrev pub comm_len : ℕ
comm_len = 32

abbrev pub path_len : ℕ
path_len = 4096

-- `num_connections` is an `int` in C, which 2 ^ 31 sockets of one process would overflow; here it has no
-- bound.
pub record ProcessInfo : Type 0 where
  pub pid : ℤ
  pub process_name : Text
  pub exe_path : Text
  pub num_connections : ℕ
  pub has_tcp : Bool
  pub has_udp : Bool

-- The array holds `count` processes, which is the length of the list.
pub record ProcessList : Type 0 where
  pub processes : List ProcessInfo
  pub capacity : ℕ

-- What the system shows while one process is looked at: the first line of `/proc/<pid>/comm` with
-- its newline, the link `/proc/<pid>/exe`, and whether `realloc` succeeds.
pub record Seen : Type 0 where
  pub comm : Option Text
  pub exe : Option Text
  pub realloc_ok : Bool

-- `create_process_list`, where its allocations succeed.
unfoldable pub create_process_list : ProcessList
create_process_list = record { processes = []; capacity = 64 }

abbrev pub is_control : ℕ → Bool
is_control c = ltb c 0x20 || c == 0x7f

-- The two loops that replace control characters.
unfoldable pub sanitize : Text → Text
sanitize [] = []
sanitize (c ∷ s) = (if is_control c then b'?' else c) ∷ sanitize s

-- A newline at the end is cut off.
unfoldable pub cut_newline : Text → Text
cut_newline [] = []
cut_newline (c ∷ []) = if c == 10 then [] else c ∷ []
cut_newline (c ∷ d ∷ s) = c ∷ cut_newline (d ∷ s)

abbrev pub name_of : Option Text → Text
name_of none = []
name_of (some line) = sanitize (cut_newline (take (comm_len - 1) line))

abbrev pub exe_of : Option Text → Text
exe_of none = []
exe_of (some link) = sanitize (take (path_len - 1) link)

-- One more connection of a known process.
unfoldable pub bump : Bool → ProcessInfo → ProcessInfo
bump is_tcp e =
    if is_tcp
    then record e { num_connections = e.num_connections + 1; has_tcp = true }
    else record e { num_connections = e.num_connections + 1; has_udp = true }

-- The first loop of `add_process_list`: the list with the process counted, if it is there.
unfoldable pub count_again : ℤ → Bool → List ProcessInfo → Option (List ProcessInfo)
unfolding bump
count_again pid is_tcp [] = none
count_again pid is_tcp (e ∷ es) =
    let rest = count_again pid is_tcp es in
    if int_eq e.pid pid
    then some (bump is_tcp e ∷ es)
    else elim rest [ none ↦ none | some es' ↦ some (e ∷ es') ]

unfoldable pub new_process : Seen → ℤ → Bool → ProcessInfo
unfolding sanitize cut_newline
new_process seen pid is_tcp = record {
  pid = pid;
  process_name = name_of seen.comm;
  exe_path = exe_of seen.exe;
  num_connections = 1;
  has_tcp = is_tcp;
  has_udp = not is_tcp;
}

-- The second part: the array is doubled if it is full, and the process is put behind the others.
unfoldable pub append_process : Seen → ProcessList → ℤ → Bool → Bool × ProcessList
unfolding new_process
append_process seen list pid is_tcp =
    let full = leb list.capacity (length list.processes) in
    let capacity = if full then list.capacity * 2 else list.capacity in
    if full && not seen.realloc_ok then (false, record list { capacity = capacity }) else (
      true,
      record {
        processes = list.processes ++ (new_process seen pid is_tcp ∷ []);
        capacity = capacity;
      },
    )

-- After the first loop.
unfoldable pub add_counted :
    Seen → ProcessList → ℤ → Bool → Option (List ProcessInfo) → Bool × ProcessList
unfolding append_process
add_counted seen list pid is_tcp (some es) = (true, record list { processes = es })
add_counted seen list pid is_tcp none = append_process seen list pid is_tcp

-- True for 0, false for -1.
unfoldable pub add_process_list : Seen → ProcessList → ℤ → Bool → Bool × ProcessList
unfolding count_again add_counted
add_process_list seen list pid is_tcp =
    add_counted seen list pid is_tcp (count_again pid is_tcp list.processes)
