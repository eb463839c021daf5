-- ===== src/Discovery/Query/Invariant.antt =====
-- lib/src/discovery.c: the list that `get_network_processes` hands out, for all the kernel says.
use pidnl.Base.{
  ℕ, ℤ, ◌≡◌, is_pos, leb, Bool, true, false, ◌||◌, ◌==◌, List, [], ◌∷◌, Option, none, some,
  if◌then◌else◌, Bool-cases, inl, inr,
}
use pidnl.Discovery.{Seen, ProcessList, create_process_list}
use pidnl.Discovery.Invariant.{IsList, add_process_list-IsList, create_process_list-IsList}
use pidnl.Discovery.Inode.{ProcEntry, find_pid_by_inode}
use pidnl.Discovery.Query.{
  DiscoveryCode, recvmsg_failed, Message, done_message, error_message, other_message, diag,
  Received, interrupted, failed, closed, datagram, Verdict, success, failure, more, count_owner,
  count_socket, read_messages, receive, Dump, query_sockets, query_all, Netlink,
  get_network_processes,
}

count_owner-IsList :
    (is_tcp : Bool) (pid : ℤ) (seen : Seen) (list : ProcessList)
    → IsList list
    → IsList (count_owner is_tcp pid seen list).1
unfolding count_owner
count_owner-IsList is_tcp pid seen list v = elim (Bool-cases (is_pos pid)) [
  | inl found ↦ rw (found) (add_process_list-IsList seen list pid is_tcp v)
  | inr lost ↦ rw (lost) v
]

count_socket-IsList :
    (is_tcp : Bool) (uid inode : ℕ) (proc : Option (List ProcEntry)) (seen : Seen)
    (list : ProcessList)
    → IsList list
    → IsList (count_socket is_tcp uid inode proc seen list).1
unfolding count_socket
count_socket-IsList is_tcp uid inode proc seen list v =
    elim (Bool-cases (uid == 0 || leb 1000 uid)) [
      | inl counts ↦
          rw (counts) (count_owner-IsList is_tcp (find_pid_by_inode proc inode) seen list v)
      | inr skips ↦ rw (skips) v
    ]

read_messages-IsList :
    (is_tcp : Bool) (ms : List Message) (list : ProcessList)
    → IsList list
    → IsList (read_messages is_tcp ms list).1
unfolding read_messages
read_messages-IsList is_tcp [] list v = v
read_messages-IsList is_tcp (done_message ∷ ms) list v = v
read_messages-IsList is_tcp (error_message ∷ ms) list v = v
read_messages-IsList is_tcp (other_message ∷ ms) list v = read_messages-IsList is_tcp ms list v
read_messages-IsList is_tcp (diag uid inode proc seen ∷ ms) list v =
    let counted = count_socket is_tcp uid inode proc seen list in
    let v' = count_socket-IsList is_tcp uid inode proc seen list v in
    elim (Bool-cases counted.0) [
      | inl ok ↦ rw (ok) (read_messages-IsList is_tcp ms counted.1 v')
      | inr full ↦ rw (full) v'
    ]

-- A result, if there is one, holds a list in order.
abbrev Sound : {A : Type 0} → Option (A × ProcessList) → Type 0
Sound none = Unit
Sound (some (a, list)) = IsList list

after_datagram :
    (verdict : Verdict) (list : ProcessList) (next : Option (Bool × ProcessList))
    → Sound next
    → IsList list
    → Sound
        (elim verdict [ success ↦ some (true, list) | failure ↦ some (false, list) | more ↦ next ])
after_datagram success list next s v = v
after_datagram failure list next s v = v
after_datagram more list next s v = s

receive-Sound :
    (is_tcp : Bool) (rs : List Received) (list : ProcessList)
    → IsList list
    → Sound (receive is_tcp rs list)
unfolding receive
receive-Sound is_tcp [] list v = tt
receive-Sound is_tcp (interrupted ∷ rs) list v = receive-Sound is_tcp rs list v
receive-Sound is_tcp (failed ∷ rs) list v = v
receive-Sound is_tcp (closed ∷ rs) list v = v
receive-Sound is_tcp (datagram ms ∷ rs) list v =
    let read = read_messages is_tcp ms list in
    let v' = read_messages-IsList is_tcp ms list v in
    after_datagram read.0 read.1 (receive is_tcp rs read.1) (receive-Sound is_tcp rs read.1 v') v'

query_sockets-Sound :
    (is_tcp : Bool) (dump : Dump) (list : ProcessList)
    → IsList list
    → Sound (query_sockets is_tcp dump list)
unfolding query_sockets
query_sockets-Sound is_tcp dump list v = elim (Bool-cases dump.sent) [
  | inl sent ↦ rw (sent, query_sockets) (receive-Sound is_tcp dump.answers list v)
  | inr unsent ↦ rw (unsent, query_sockets) v
]

after_query :
    (result : Option (Bool × ProcessList))
    (next : ProcessList → Option (DiscoveryCode × ProcessList))
    → Sound result
    → ((list : ProcessList) → IsList list → Sound (next list))
    → Sound (elim result [
      | none ↦ none
      | some (ok, list) ↦ if ok then next list else some (recvmsg_failed, list)
    ])
after_query none next s k = tt
after_query (some (true, list)) next s k = k list s
after_query (some (false, list)) next s k = s

query_all-Sound :
    (dumps : List (Bool × Dump)) (list : ProcessList) → IsList list → Sound (query_all dumps list)
unfolding query_all
query_all-Sound [] list v = v
query_all-Sound ((is_tcp, dump) ∷ dumps) list v =
    after_query (query_sockets is_tcp dump list) (query_all dumps)
      (query_sockets-Sound is_tcp dump list v) (query_all-Sound dumps)

get_network_processes-Sound : (n : Netlink) → Sound (get_network_processes n)
unfolding get_network_processes
get_network_processes-Sound n = elim (Bool-cases n.socket_ok) [
  | inr lacks ↦ rw (lacks, get_network_processes) create_process_list-IsList
  | inl opened ↦ elim (Bool-cases n.bind_ok) [
    | inr lacks ↦ rw (opened, lacks, get_network_processes) create_process_list-IsList
    | inl bound ↦ elim (Bool-cases n.malloc_ok) [
      | inr lacks ↦ rw (opened, bound, lacks, get_network_processes) create_process_list-IsList
      | inl got ↦
          rw (opened, bound, got, get_network_processes)
            (query_all-Sound
              ((true, n.tcp4) ∷ (true, n.tcp6) ∷ (false, n.udp4) ∷ (false, n.udp6) ∷ [])
              create_process_list create_process_list-IsList)
    ]
  ]
]

-- Whatever the kernel answers, the list that is handed out fits the array and holds each process
-- once, with a connection, the protocol of one and texts without control characters.
pub get_network_processes-IsList :
    (n : Netlink) (code : DiscoveryCode) (list : ProcessList)
    → get_network_processes n ≡ some (code, list)
    → IsList list
get_network_processes-IsList n code list h = rw (h) at (get_network_processes-Sound n)
