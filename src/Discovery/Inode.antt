-- ===== src/Discovery/Inode.antt =====
-- lib/src/discovery.c: `find_pid_by_inode`, the search for the process that owns a socket.
use pidnl.Base.{
  ℕ, ◌%◌, ◌^◌, ℤ, negsuc, Bool, true, false, not, List, [], ◌∷◌, Option, none, some, Text, codes,
  ◌==◌, if◌then◌else◌,
}
use pidnl.Cstd.{strtol, strtoul}

-- An entry of `/proc`: its name and, where `/proc/<pid>/fd` can be opened, the names and links in
-- it. A link that cannot be read is empty.
pub record ProcEntry : Type 0 where
  pub name : Text
  pub fds : Option (List (Text × Text))

abbrev starts_with_dot : Text → Bool
starts_with_dot [] = false
starts_with_dot (c ∷ s) = c == b'.'

strip_prefix : Text → Text → Option Text
strip_prefix [] s = some s
strip_prefix (c ∷ prefix) [] = none
strip_prefix (c ∷ prefix) (d ∷ s) =
    let rest = strip_prefix prefix s in if c == d then rest else none

-- `sscanf(link, "socket:[%u]", &fd_inode) == 1`, and the number. `%u` is read by `strtoul`.
unfoldable pub scan_socket_link : Text → Option ℕ
unfolding strip_prefix strtoul
scan_socket_link link = elim (strip_prefix (codes "socket:[") link) [
  | none ↦ none
  | some rest ↦ let r = strtoul rest in if r.moved then some (r.value % 2 ^ 32) else none
]

owns : ℕ → Text × Text → Bool
unfolding scan_socket_link
owns inode (name, link) =
    if starts_with_dot name
    then false
    else elim (scan_socket_link link) [ none ↦ false | some n ↦ n == inode ]

-- The inner loop: whether one of the links is the socket.
unfoldable pub any_owns : ℕ → List (Text × Text) → Bool
unfolding owns
any_owns inode [] = false
any_owns inode (fd ∷ fds) = let rest = any_owns inode fds in if owns inode fd then true else rest

-- The PID of an entry that owns the socket.
unfoldable pub owner : ℕ → ProcEntry → Option ℤ
unfolding any_owns strtol
owner inode e =
    if starts_with_dot e.name
    then none
    else let r = strtol e.name in
      if not r.moved
      then none
      else elim e.fds [ none ↦ none | some fds ↦ if any_owns inode fds then some r.value else none ]

search_proc : ℕ → List ProcEntry → ℤ
unfolding owner
search_proc inode [] = negsuc 0
search_proc inode (e ∷ es) =
    let rest = search_proc inode es in elim (owner inode e) [ none ↦ rest | some pid ↦ pid ]

-- `none` where `/proc` cannot be opened. (A PID fits `pid_t`.)
unfoldable pub find_pid_by_inode : Option (List ProcEntry) → ℕ → ℤ
unfolding search_proc
find_pid_by_inode none inode = negsuc 0
find_pid_by_inode (some entries) inode = search_proc inode entries
