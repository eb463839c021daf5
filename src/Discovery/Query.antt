-- ===== src/Discovery/Query.antt =====
-- lib/src/discovery.c: `query_sockets` and `get_network_processes` over the answers of the kernel.
pub mod Invariant
use pidnl.Base.{
  ℕ, ℤ, is_pos, leb, Bool, true, false, ◌||◌, ◌==◌, List, [], ◌∷◌, Text, codes, Option, none, some,
  if◌then◌else◌,
}
use pidnl.Discovery.{Seen, ProcessList, create_process_list, add_process_list}
use pidnl.Discovery.Inode.{ProcEntry, find_pid_by_inode}

pub data DiscoveryCode : Type 0 where
  discovery_ok alloc_failed socket_failed bind_failed recvmsg_failed netlink_error : DiscoveryCode

unfoldable pub discovery_code_string : DiscoveryCode → Text
discovery_code_string discovery_ok = codes "Success"
discovery_code_string alloc_failed = codes "Failed to allocate memory"
discovery_code_string socket_failed = codes "Failed to create netlink socket"
discovery_code_string bind_failed = codes "Failed to bind netlink socket"
discovery_code_string recvmsg_failed = codes "Failed to receive netlink messages"
discovery_code_string netlink_error = codes "Netlink error received"

-- A netlink message. A socket brings its owner's user, its inode and what the system shows while
-- it is looked at.
pub data Message : Type 0 where
  done_message error_message other_message : Message
  diag : ℕ → ℕ → Option (List ProcEntry) → Seen → Message

-- What one `recvmsg` returns. A `datagram []` holds no whole message.
pub data Received : Type 0 where
  interrupted failed closed : Received
  datagram : List Message → Received

-- `UID_MIN_DEFAULT`
abbrev uid_min : ℕ
uid_min = 1000

-- The state of the query after a datagram: over with success or failure, or more to come.
pub data Verdict : Type 0 where
  success failure more : Verdict

unfoldable pub count_owner : Bool → ℤ → Seen → ProcessList → Bool × ProcessList
unfolding add_process_list
count_owner is_tcp pid seen list =
    if is_pos pid then add_process_list seen list pid is_tcp else (true, list)

-- A socket of root or of an ordinary user, whose owner is found, is counted.
unfoldable pub count_socket :
    Bool → ℕ → ℕ → Option (List ProcEntry) → Seen → ProcessList → Bool × ProcessList
unfolding count_owner find_pid_by_inode
count_socket is_tcp uid inode proc seen list =
    if uid == 0 || leb uid_min uid
    then count_owner is_tcp (find_pid_by_inode proc inode) seen list
    else (true, list)

-- The loop over the messages of a datagram.
unfoldable pub read_messages : Bool → List Message → ProcessList → Verdict × ProcessList
read_messages is_tcp [] list = (more, list)
read_messages is_tcp (done_message ∷ ms) list = (success, list)
read_messages is_tcp (error_message ∷ ms) list = (failure, list)
read_messages is_tcp (other_message ∷ ms) list = read_messages is_tcp ms list
read_messages is_tcp (diag uid inode proc seen ∷ ms) list =
    let counted = count_socket is_tcp uid inode proc seen list in
    let rest = read_messages is_tcp ms counted.1 in if counted.0 then rest else (failure, counted.1)

-- The endless loop over the datagrams. `none`: it waits for one more.
unfoldable pub receive : Bool → List Received → ProcessList → Option (Bool × ProcessList)
unfolding read_messages
receive is_tcp [] list = none
receive is_tcp (interrupted ∷ rs) list = receive is_tcp rs list
receive is_tcp (failed ∷ rs) list = some (false, list)
receive is_tcp (closed ∷ rs) list = some (true, list)
receive is_tcp (datagram ms ∷ rs) list =
    let read = read_messages is_tcp ms list in
    let rest = receive is_tcp rs read.1 in
    elim read.0 [ success ↦ some (true, read.1) | failure ↦ some (false, read.1) | more ↦ rest ]

-- One `query_sockets`: whether the request is sent, and the answers to it.
pub record Dump : Type 0 where
  pub sent : Bool
  pub answers : List Received

unfoldable pub query_sockets : Bool → Dump → ProcessList → Option (Bool × ProcessList)
unfolding receive
query_sockets is_tcp dump list =
    if dump.sent then receive is_tcp dump.answers list else some (false, list)

-- The four queries in a row; an error ends them.
unfoldable pub query_all : List (Bool × Dump) → ProcessList → Option (DiscoveryCode × ProcessList)
unfolding query_sockets
query_all [] list = some (discovery_ok, list)
query_all ((is_tcp, dump) ∷ dumps) list = elim (query_sockets is_tcp dump list) [
  | none ↦ none
  | some (ok, list') ↦ if ok then query_all dumps list' else some (recvmsg_failed, list')
]

-- The netlink socket, and the answers to the queries for TCP and UDP over IPv4 and IPv6.
pub record Netlink : Type 0 where
  pub socket_ok : Bool
  pub bind_ok : Bool
  pub malloc_ok : Bool
  pub tcp4 : Dump
  pub tcp6 : Dump
  pub udp4 : Dump
  pub udp6 : Dump

-- The list counts only with DISCOVERY_OK: the code destroys it with any other.
unfoldable pub get_network_processes : Netlink → Option (DiscoveryCode × ProcessList)
unfolding query_all create_process_list
get_network_processes n =
    if n.socket_ok
    then if n.bind_ok
      then if n.malloc_ok
        then query_all ((true, n.tcp4) ∷ (true, n.tcp6) ∷ (false, n.udp4) ∷ (false, n.udp6) ∷ [])
            create_process_list
        else some (alloc_failed, create_process_list)
      else some (bind_failed, create_process_list)
    else some (socket_failed, create_process_list)
