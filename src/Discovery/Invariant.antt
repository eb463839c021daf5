-- ===== src/Discovery/Invariant.antt =====
-- lib/src/discovery.c: what holds of every list that discovery builds.
use pidnl.Base.{
  Text, take, ◌-◌, Bool-cases, Option-cases, inl, inr, ℕ, ◌+◌, ◌≤◌, ◌≡◌, refl, ℤ, int_eq,
  int_eq_iff, Bool, true, false, ◌||◌, ◌&&◌, not, List, [], ◌∷◌, ◌++◌, Option, none, some, length,
  length-append, if◌then◌else◌, arith, leb,
}
use pidnl.Discovery.{
  comm_len, path_len, name_of, exe_of, cut_newline, sanitize, is_control, ProcessInfo, ProcessList,
  Seen, count_again, new_process, append_process, add_counted, add_process_list,
  create_process_list,
}

-- How many entries there are for the PID.
unfoldable pub listed : List ProcessInfo → ℤ → ℕ
listed [] pid = 0
listed (e ∷ es) pid = (if int_eq e.pid pid then 1 else 0) + listed es pid

-- All connections of all processes.
unfoldable pub connections : List ProcessInfo → ℕ
connections [] = 0
connections (e ∷ es) = e.num_connections + connections es

unfoldable pub printable : Text → Bool
printable [] = true
printable (c ∷ s) = not (is_control c) && printable s

sanitize-printable : (s : Text) → printable (sanitize s) ≡ true
unfolding sanitize printable
sanitize-printable [] = refl
sanitize-printable (c ∷ s) = ground (arith, sanitize-printable s)

name_of-printable : (line : Option Text) → printable (name_of line) ≡ true
unfolding printable
name_of-printable none = refl
name_of-printable (some line) = sanitize-printable (cut_newline (take (comm_len - 1) line))

exe_of-printable : (link : Option Text) → printable (exe_of link) ≡ true
unfolding printable
exe_of-printable none = refl
exe_of-printable (some link) = sanitize-printable (take (path_len - 1) link)

-- Every process has a connection, the protocols of its connections are marked, and its texts hold no
-- control character.
abbrev pub Used : List ProcessInfo → Type 0
Used [] = Unit
Used (e ∷ es) =
    (1 ≤ e.num_connections)
    × ((e.has_tcp || e.has_udp) ≡ true)
    × (printable e.process_name ≡ true)
    × (printable e.exe_path ≡ true)
    × Used es

pub record IsList (list : ProcessList) : Type 0 where
  pub fits : length list.processes ≤ list.capacity
  pub room : 64 ≤ list.capacity
  pub once : (pid : ℤ) → listed list.processes pid ≤ 1
  pub used : Used list.processes

count_again-none :
    (pid : ℤ) (is_tcp : Bool) (es : List ProcessInfo)
    → count_again pid is_tcp es ≡ none
    → listed es pid ≡ 0
unfolding count_again listed
count_again-none pid is_tcp [] h = refl
count_again-none pid is_tcp (e ∷ es) h = ground (arith, count_again-none pid is_tcp es)

-- Counting again adds one connection, and no process.
count_again-some :
    (pid : ℤ) (is_tcp : Bool) (es es' : List ProcessInfo) (q : ℤ)
    → count_again pid is_tcp es ≡ some es'
    → (length es' ≡ length es)
      × (connections es' ≡ connections es + 1)
      × (listed es' q ≡ listed es q)
      × (Used es → Used es')
unfolding count_again connections listed
count_again-some pid is_tcp [] es' q h = absurd (cc)
count_again-some pid is_tcp (e ∷ es) es' q h = elim (Option-cases (count_again pid is_tcp es)) [
  | inl nowhere ↦ (ground arith, ground arith, ground arith, λ u. ground arith)
  | inr (r, later) ↦
      let (len, con, lis, keep) = count_again-some pid is_tcp es r q later in
      (ground arith, ground arith, ground arith, λ u. ground (arith, keep u.4))
]

append_at_end :
    (es : List ProcessInfo) (e : ProcessInfo) (q : ℤ)
    → (connections (es ++ (e ∷ [])) ≡ connections es + e.num_connections)
      × (listed (es ++ (e ∷ [])) q ≡ listed es q + (if int_eq e.pid q then 1 else 0))
unfolding connections listed
append_at_end [] e q = omega arith
append_at_end (d ∷ es) e q = omega (arith, append_at_end es e q)

Used-append :
    (es : List ProcessInfo) (e : ProcessInfo)
    → Used es
    → 1 ≤ e.num_connections
    → (e.has_tcp || e.has_udp) ≡ true
    → printable e.process_name ≡ true
    → printable e.exe_path ≡ true
    → Used (es ++ (e ∷ []))
Used-append [] e u h k l m = (h, k, l, m, tt)
Used-append (d ∷ es) e (a, b, f, g, u) h k l m = (a, b, f, g, Used-append es e u h k l m)

pub create_process_list-IsList : IsList create_process_list
unfolding create_process_list listed
create_process_list-IsList = record {
  fits = omega arith;
  room = omega arith;
  once = λ q. omega arith;
  used = tt;
}

one_protocol : (b : Bool) → (b || not b) ≡ true
one_protocol true = refl
one_protocol false = refl

appended-Used :
    (seen : Seen) (list : ProcessList) (pid : ℤ) (is_tcp : Bool)
    → Used list.processes
    → Used (append_process seen list pid is_tcp).1.processes
unfolding append_process new_process
appended-Used seen list pid is_tcp u =
    let e = new_process seen pid is_tcp in
    let longer =
      Used-append list.processes e u (omega arith) (one_protocol is_tcp)
        (name_of-printable seen.comm) (exe_of-printable seen.exe) in
    elim (Bool-cases (leb list.capacity (length list.processes) && not seen.realloc_ok)) [
      | inl fails ↦ rw fails u
      | inr works ↦ rw works longer
    ]

append_process-IsList :
    (seen : Seen) (list : ProcessList) (pid : ℤ) (is_tcp : Bool)
    → listed list.processes pid ≡ 0
    → IsList list
    → IsList (append_process seen list pid is_tcp).1
unfolding append_process
append_process-IsList seen list pid is_tcp new v =
    let e = new_process seen pid is_tcp in
    record {
      fits = ground (arith, length-append list.processes (e ∷ []), v.fits, v.room);
      room = ground (arith, v.room);
      once = λ q.
          ground (arith, v.once q, (append_at_end list.processes e q).1, (int_eq_iff pid q).0, new);
      used = appended-Used seen list pid is_tcp v.used;
    }

counted-IsList :
    (seen : Seen) (list : ProcessList) (pid : ℤ) (is_tcp : Bool)
    (counted : Option (List ProcessInfo))
    → count_again pid is_tcp list.processes ≡ counted
    → IsList list
    → IsList (add_counted seen list pid is_tcp counted).1
unfolding add_counted
counted-IsList seen list pid is_tcp none h v =
    append_process-IsList seen list pid is_tcp (count_again-none pid is_tcp list.processes h) v
counted-IsList seen list pid is_tcp (some es) h v =
    let (len, con, lis, keep) = count_again-some pid is_tcp list.processes es pid h in
    record {
      fits = rw len v.fits;
      room = v.room;
      once = λ q. rw (count_again-some pid is_tcp list.processes es q h).2 (v.once q);
      used = keep v.used;
    }

-- Adding a process keeps the order of a list that is in order, whether or not memory is found.
pub add_process_list-IsList :
    (seen : Seen) (list : ProcessList) (pid : ℤ) (is_tcp : Bool)
    → IsList list
    → IsList (add_process_list seen list pid is_tcp).1
unfolding add_process_list
add_process_list-IsList seen list pid is_tcp v =
    counted-IsList seen list pid is_tcp (count_again pid is_tcp list.processes) refl v

-- What adding does to the sum of the connections.
Adds : ProcessList → Bool × ProcessList → Type 0
Adds list r =
    ((r.0 ≡ true) → connections r.1.processes ≡ connections list.processes + 1)
    × ((r.0 ≡ false) → r.1.processes ≡ list.processes)

append_process-Adds :
    (seen : Seen) (list : ProcessList) (pid : ℤ) (is_tcp : Bool)
    → Adds list (append_process seen list pid is_tcp)
unfolding append_process new_process Adds
append_process-Adds seen list pid is_tcp =
    elim (Bool-cases (leb list.capacity (length list.processes) && not seen.realloc_ok)) [
      | inl fails ↦ rw fails ((λ h. absurd (cc)), λ h. refl)
      | inr works ↦ rw works (
        (λ h. (append_at_end list.processes (new_process seen pid is_tcp) pid).0),
        λ h. absurd (cc),
      )
    ]

add_counted-Adds :
    (seen : Seen) (list : ProcessList) (pid : ℤ) (is_tcp : Bool)
    (counted : Option (List ProcessInfo))
    → count_again pid is_tcp list.processes ≡ counted
    → Adds list (add_counted seen list pid is_tcp counted)
unfolding add_counted Adds
add_counted-Adds seen list pid is_tcp none h = append_process-Adds seen list pid is_tcp
add_counted-Adds seen list pid is_tcp (some es) h =
    ((λ k. (count_again-some pid is_tcp list.processes es pid h).1), λ k. absurd (cc))

-- Where the process is added the connections of all processes grow by one, and otherwise the
-- processes stay as they are.
pub add_process_list-connections :
    (seen : Seen) (list : ProcessList) (pid : ℤ) (is_tcp : Bool)
    → let r = add_process_list seen list pid is_tcp in
      ((r.0 ≡ true) → connections r.1.processes ≡ connections list.processes + 1)
      × ((r.0 ≡ false) → r.1.processes ≡ list.processes)
unfolding add_process_list Adds
add_process_list-connections seen list pid is_tcp =
    add_counted-Adds seen list pid is_tcp (count_again pid is_tcp list.processes) refl
