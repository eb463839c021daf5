-- ===== src/Tests.antt =====
-- The machine on which every call succeeds that the runs share, and the runs of discovery.
mod Glib
mod Gui
mod Window
mod Session
mod Cli
mod Bpf
mod Monitor
mod Ratelimit
use pidnl.Base.{
  ◌≡◌, ◌-◌, refl, pos, negsuc, true, false, [], ◌∷◌, Option, none, some, codes, text_eq,
  if◌then◌else◌, arith,
}
use pidnl.System.{
  Call, Answer, Env, Process, PidfdEntry, start, created, cgroup2_super, bpf_fs, other_errno, found,
  polled, message,
}
use pidnl.Bpf.{egress_rl}
use pidnl.Discovery.{ProcessList, Seen}
use pidnl.Discovery.Invariant.{IsList}
use pidnl.Discovery.Query.{
  discovery_ok, Netlink, Dump, datagram, diag, done_message, get_network_processes,
}
use pidnl.Discovery.Query.Invariant.{get_network_processes-IsList}
use pidnl.System.{Outcome, done}

-- Every call succeeds; `fork` answers the parent.
abbrev answers : (c : Call) → Answer c
answers Call.cgroup_init = pos 0
answers (Call.cgroup_get_subsys_mount_point controller) = some (11, codes "/sys/fs/cgroup")
answers (Call.cgroup_new_cgroup name) = some 12
answers (Call.cgroup_create_cgroup cg) = created
answers Call.cgroup_get_last_errno = other_errno
answers (Call.cgroup_get_cgroup cg) = pos 0
answers (Call.cgroup_attach_task_pid cg pid) = pos 0
answers (Call.cgroup_delete_cgroup cg) = pos 0
answers (Call.cgroup_free cg) = tt
answers (Call.cgroup_walk_tree_begin controller base) = (
  13,
  record { is_dir = true; path = codes "4242" } ∷ record { is_dir = true; path = codes "x" } ∷ [],
)
answers (Call.cgroup_walk_tree_end handle) = tt
answers (Call.statfs path) =
    if text_eq path (codes "/sys/fs/bpf") then some bpf_fs else some cgroup2_super
answers (Call.free address) = tt
answers Call.calloc = some 14
answers Call.open_mounts = some (15, (codes "bpf", codes "/sys/fs/bpf") ∷ [])
answers (Call.fclose file) = tt
answers (Call.open_file path) = pos 5
answers (Call.close fd) = tt
answers (Call.mkdir path) = none
answers (Call.rmdir path) = tt
answers (Call.unlink path) = tt
answers (Call.bpf_obj_get path) = pos 6
answers (Call.bpf_link_detach fd) = tt
answers Call.ratelimit_bpf_open = some 16
answers (Call.ratelimit_bpf_load skel) = pos 0
answers (Call.ratelimit_bpf_destroy skel) = tt
answers (Call.bpf_map_fd skel) = pos 7
answers (Call.bpf_map_update_elem fd key value) = pos 0
answers (Call.bpf_program_attach_cgroup skel hook fd) = some 17
answers (Call.bpf_link_pin link path) = pos 0
answers (Call.bpf_link_destroy link) = tt
answers (Call.bpf_prog_query fd hook) = record { ret = pos 0; prog_cnt = 1; prog_id = 21 }
answers (Call.bpf_prog_get_fd_by_id id) = pos 8
answers (Call.bpf_prog_get_info_by_fd fd) = record {
  ret = pos 0;
  name = codes "egress_rl";
  nr_map_ids = 1;
  map_ids = 31 ∷ [];
}
answers (Call.bpf_map_get_fd_by_id id) = pos 9
answers Call.read_behind = 32
answers Call.netlink_socket = 35
answers Call.list_memory = (33, 34)
answers (Call.bpf_map_get_info_by_fd fd) = some (codes "rate_limits")
answers (Call.bpf_map_lookup_elem fd key) = some 1000
answers (Call.pidfd_open pid) = pos 10
answers Call.socket = pos 3
answers (Call.connect fd path) = pos 0
answers (Call.set_timeout fd timeout) = tt
answers (Call.lstat path) = found (record { is_directory = true; uid = 0 })
answers (Call.bind fd path) = pos 0
answers (Call.listen fd) = pos 0
answers (Call.notify fd) = pos 1
answers Call.set_signals = tt
answers (Call.poll_all fds) = polled fds
answers (Call.accept fd) = pos 4
answers (Call.get_peer_uid fd) = some 0
answers (Call.read_command fd) = message (record { cmd = pos 1; pid = pos 4242 })
answers (Call.write_command fd msg) = pos 8
answers (Call.write_result fd code) = tt
answers (Call.read_result fd) = some (pos 0)
answers Call.pipe = some (pos 18, pos 19)
answers Call.fork = pos 77
answers Call.setsid = tt
answers (Call.waitpid child) = tt
answers (Call.poll_ready fd timeout) = pos 1

abbrev sunny : Env
sunny trace c = answers c

abbrev no_entry : PidfdEntry
no_entry = record { pid = pos 0; pidfd = negsuc 0; active = false }

abbrev client : Process
client = start sunny 0 []

-- The daemon with one watched process and two free slots.
abbrev daemon : Process
daemon =
    record (start sunny 3
      (record { pid = pos 55; pidfd = pos 20; active = true } ∷ no_entry ∷ no_entry ∷ [])) {
        watched_count = pos 1;
        is_monitor_process = true;
      }

-- What a run returns.
abbrev result_of : {A : Type 0} → Outcome A × Process → Option A
result_of (done a, p) = some a
result_of _ = none

abbrev seen : Seen
seen = record { comm = some (codes "nginx"); exe = none; realloc_ok = true }

abbrev nothing : Dump
nothing = record { sent = true; answers = datagram (done_message ∷ []) ∷ [] }

-- Process 4242 owns the one TCP socket.
abbrev netlink : Netlink
netlink = record {
  socket_ok = true;
  bind_ok = true;
  malloc_ok = true;
  tcp4 = record {
    sent = true;
    answers =
        datagram (
          diag 1000 99
            (some (
              record { name = codes "4242"; fds = some ((codes "3", codes "socket:[99]") ∷ []) }
              ∷ []))
            seen
          ∷ done_message
          ∷ [])
        ∷ [];
  };
  tcp6 = nothing;
  udp4 = nothing;
  udp6 = nothing;
}

abbrev one_process : ProcessList
one_process = record {
  processes =
      record {
        pid = pos 4242;
        process_name = codes "nginx";
        exe_path = [];
        num_connections = 1;
        has_tcp = true;
        has_udp = false;
      }
      ∷ [];
  capacity = 64;
}

found_4242 : get_network_processes netlink ≡ some (discovery_ok, one_process)
unfolding get_network_processes pidnl.Discovery.Query.count_socket
found_4242 = refl

get_network_processes-IsList_example : IsList one_process
get_network_processes-IsList_example =
    get_network_processes-IsList netlink discovery_ok one_process found_4242
