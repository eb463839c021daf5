-- ===== src/Discovery/Owned.antt =====
-- lib/src/discovery.c: `get_network_processes` with the netlink socket that it opens and the memory of
-- the list. What the kernel answers and what is found are those of Query.
use pidnl.Base.{
  ℕ, ◌+◌, ◌≡◌, ◌≢◌, ◌∙◌, ap, pos, true, refl, Option, none, some, if◌then◌else◌, arith, ◌&&◌,
}
use pidnl.System.{Process, done, M, pure, running, ◌>>=◌, ◌>>◌, call, Call}
use pidnl.System.Ledger.{
  Resource, block, descriptor, tally, Uses, call-Uses, bind-Uses, last-Uses, if-Uses, pure-Uses,
}
use pidnl.System.Returns.{Condition, Returns, call-Returns, bind-Returns, if-Returns, pure-Returns}
use pidnl.Discovery.{ProcessList}
use pidnl.Discovery.Query.{DiscoveryCode, discovery_ok, Netlink, get_network_processes}

-- The addresses of a list and of its array.
abbrev pub Memory : Type 0
Memory = ℕ × ℕ

unfoldable pub destroy_process_list : Memory → M (Unit {0})
destroy_process_list (list, processes) = do call (Call.free processes); call (Call.free list)

-- The function waits for a datagram that does not come.
abbrev pub wait : {A : Type 0} → M A
wait p = (running, p)

-- Behind the queries: a list that is whole is handed out.
unfoldable pub hand_out :
    ℕ → Memory → Option (DiscoveryCode × ProcessList) → M (Option (ProcessList × Memory))
unfolding destroy_process_list
hand_out fd memory none = wait
hand_out fd memory (some (discovery_ok, list)) = do
  call (Call.close (pos fd))
  pure (some (list, memory))
hand_out fd memory (some (_, list)) = do
  destroy_process_list memory
  call (Call.close (pos fd))
  pure none

-- Behind `socket`.
unfoldable pub on_socket : Netlink → ℕ → M (Option (ProcessList × Memory))
unfolding hand_out
on_socket n fd =
    if n.bind_ok && n.malloc_ok
    then call Call.list_memory >>= (λ memory. hand_out fd memory (get_network_processes n))
    else call (Call.close (pos fd)) >> pure none

-- `none` stands for any code but DISCOVERY_OK.
unfoldable pub find_network_processes : Netlink → M (Option (ProcessList × Memory))
unfolding on_socket
find_network_processes n =
    if n.socket_ok then call Call.netlink_socket >>= (λ fd. on_socket n fd) else pure none

-- The memory of a list, where there is one.
abbrev pub owned : Resource → Option (ProcessList × Memory) → ℕ
owned r none = 0
owned r (some (found, (list, processes))) = tally r (block list) + tally r (block processes)

module _ (r : Resource) where
  pub destroy_process_list-Uses :
      (list processes : ℕ)
      → Uses r
          (tally r (block list) + tally r (block processes))
          (destroy_process_list (list, processes))
          (λ _. 0)
  unfolding destroy_process_list
  destroy_process_list-Uses list processes =
      bind-Uses r (tally r (block list)) (call-Uses r (Call.free processes)) (omega arith)
        λ _. last-Uses r 0 (call-Uses r (Call.free list)) (omega arith) (λ u. omega arith)

  give_up-Uses :
      (fd list processes : ℕ)
      → Uses r
          (tally r (descriptor (pos fd)) + (tally r (block list) + tally r (block processes)))
          (do destroy_process_list (list, processes); call (Call.close (pos fd)); pure none)
          (owned r)
  give_up-Uses fd list processes =
      bind-Uses r (tally r (descriptor (pos fd))) (destroy_process_list-Uses list processes)
        (omega arith)
        λ _.
          bind-Uses r 0 (call-Uses r (Call.close (pos fd))) (omega arith)
            λ _. pure-Uses r none (omega arith)

  hand_out-Uses :
      (fd list processes : ℕ) (found : Option (DiscoveryCode × ProcessList))
      → Uses r
          (tally r (descriptor (pos fd)) + (tally r (block list) + tally r (block processes)))
          (hand_out fd (list, processes) found)
          (owned r)
  unfolding hand_out
  hand_out-Uses fd list processes none = record { apply = λ p. tt }
  hand_out-Uses fd list processes (some (discovery_ok, found)) =
      bind-Uses r (tally r (block list) + tally r (block processes))
        (call-Uses r (Call.close (pos fd))) (omega arith) λ _. pure-Uses r _ (omega arith)
  hand_out-Uses fd list processes (some (_, found)) = give_up-Uses fd list processes

  on_socket-Uses :
      (n : Netlink) (fd : ℕ) → Uses r (tally r (descriptor (pos fd))) (on_socket n fd) (owned r)
  unfolding on_socket
  on_socket-Uses n fd =
      if-Uses r (n.bind_ok && n.malloc_ok)
        (λ _.
          bind-Uses r (tally r (descriptor (pos fd))) (call-Uses r Call.list_memory) (omega arith)
            λ (list, processes). hand_out-Uses fd list processes (get_network_processes n))
        λ _.
          bind-Uses r 0 (call-Uses r (Call.close (pos fd))) (omega arith)
            λ _. pure-Uses r none (omega arith)

  -- Whatever is answered, the socket is closed, and the memory is freed or handed out with the list.
  pub find_network_processes-Uses : (n : Netlink) → Uses r 0 (find_network_processes n) (owned r)
  unfolding find_network_processes
  find_network_processes-Uses n =
      if-Uses r n.socket_ok
        (λ _.
          bind-Uses r 0 (call-Uses r Call.netlink_socket) (omega arith)
            λ fd. last-Uses r 0 (on_socket-Uses n fd) (omega arith) (λ found. omega arith))
        λ _. pure-Uses r none (omega arith)

module _ (P : Condition) where
  pub destroy_process_list-Returns : (memory : Memory) → Returns P (destroy_process_list memory)
  unfolding destroy_process_list
  destroy_process_list-Returns (list, processes) =
      bind-Returns P (call-Returns P (Call.free processes)) λ _. call-Returns P (Call.free list)

  hand_out-Returns :
      (fd : ℕ) (memory : Memory) (found : Option (DiscoveryCode × ProcessList))
      → found ≢ none
      → Returns P (hand_out fd memory found)
  unfolding hand_out
  hand_out-Returns fd memory none h = elim (h refl) [ ]
  hand_out-Returns fd memory (some (discovery_ok, found)) h =
      bind-Returns P (call-Returns P (Call.close (pos fd))) λ _. pure-Returns P _
  hand_out-Returns fd memory (some (_, found)) h =
      bind-Returns P (destroy_process_list-Returns memory)
        λ _. bind-Returns P (call-Returns P (Call.close (pos fd))) λ _. pure-Returns P _

  on_socket-Returns :
      (n : Netlink) (fd : ℕ) → get_network_processes n ≢ none → Returns P (on_socket n fd)
  unfolding on_socket
  on_socket-Returns n fd h =
      if-Returns P (n.bind_ok && n.malloc_ok)
        (λ _.
          bind-Returns P (call-Returns P Call.list_memory)
            λ memory. hand_out-Returns fd memory (get_network_processes n) h)
        λ _. bind-Returns P (call-Returns P (Call.close (pos fd))) λ _. pure-Returns P none

  pub find_network_processes-Returns :
      (n : Netlink) → get_network_processes n ≢ none → Returns P (find_network_processes n)
  unfolding find_network_processes
  find_network_processes-Returns n h =
      if-Returns P n.socket_ok
        (λ _. bind-Returns P (call-Returns P Call.netlink_socket) λ fd. on_socket-Returns n fd h)
        λ _. pure-Returns P none

-- What is found is handed out, with its memory.
opened :
    (n : Netlink) (list : ProcessList)
    → get_network_processes n ≡ some (discovery_ok, list)
    → (n.socket_ok ≡ true) × ((n.bind_ok && n.malloc_ok) ≡ true)
unfolding get_network_processes
opened n list h = ground arith

pub find_network_processes-found :
    (n : Netlink) (list : ProcessList) (p : Process)
    → get_network_processes n ≡ some (discovery_ok, list)
    → (memory : Memory) × (q : Process) × (find_network_processes n p
        ≡ (done (some (list, memory)), q))
unfolding find_network_processes on_socket hand_out call
find_network_processes-found n list p h =
    let (socket, rest) = opened n list h in
    let fd = p.env p.trace Call.netlink_socket in
    let bound = (call Call.netlink_socket p).1 in
    let memory = p.env bound.trace Call.list_memory in
    let queried = (call Call.list_memory bound).1 in
    let handed : (find_network_processes n p
        ≡ hand_out fd memory (get_network_processes n) queried) =
      rw (socket, rest) refl in
    (
      memory,
      (call (Call.close (pos fd)) queried).1,
      handed ∙ ap (λ found. hand_out fd memory found queried) h,
    )
