-- ===== src/System/Calls.antt =====
-- The calls that lib/src/ makes of the kernel, libc, libcgroup and libbpf, and what each returns.
-- None of that code is in the repository: an environment answers each call as it likes.
use pidnl.Base.{ℕ, ℤ, Bool, Option, List, Text}

-- The values of `errno` that the code tells apart.
pub data Errno : Type 0 where
  eexist enoent eintr other_errno : Errno

-- What `cgroup_create_cgroup` returns: 0, `ECGOTHER` or another code.
pub data LibcgCode : Type 0 where
  created ecgother libcg_failed : LibcgCode

-- `f_type` of `struct statfs`.
pub data FsType : Type 0 where
  cgroup2_super bpf_fs other_fs : FsType

pub data AttachType : Type 0 where
  egress_hook ingress_hook : AttachType

-- `struct bpf_prog_query_opts` after the call, with room for one program.
pub record ProgQuery : Type 0 where
  pub ret : ℤ
  pub prog_cnt : ℕ
  pub prog_id : ℕ

-- `struct bpf_prog_info` after the call. `nr_map_ids` is the number of all
-- maps of the program, `map_ids` those of their ids that the kernel fills in.
pub record ProgInfo : Type 0 where
  pub ret : ℤ
  pub name : Text
  pub nr_map_ids : ℕ
  pub map_ids : List ℕ

-- One step of `cgroup_walk_tree_*`.
pub record FileInfo : Type 0 where
  pub is_dir : Bool
  pub path : Text

-- `lstat` on the socket directory.
pub record Stat : Type 0 where
  pub is_directory : Bool
  pub uid : ℕ

pub data Statted : Type 0 where
  found : Stat → Statted
  stat_failed : Errno → Statted

-- `struct monitor_cmd`
pub record MonitorCmd : Type 0 where
  pub cmd : ℤ
  pub pid : ℤ

-- What `read` of a command yields: all its bytes, or not.
pub data Incoming : Type 0 where
  message : MonitorCmd → Incoming
  cut_short : Incoming

-- `poll` of the daemon: failure with an errno, or the descriptors with `POLLIN`.
pub data Polled : Type 0 where
  poll_failed : Errno → Polled
  polled : List ℤ → Polled

-- Pointers are numbers, NULL is `none`. A directory walk or an open file brings all that it is
-- going to yield.
pub data Call : Type 0 where
  cgroup_init : Call
  cgroup_get_subsys_mount_point : Text → Call
  cgroup_new_cgroup : Text → Call
  cgroup_create_cgroup : ℕ → Call
  cgroup_get_last_errno : Call
  cgroup_get_cgroup : ℕ → Call
  cgroup_attach_task_pid : ℕ → ℤ → Call
  cgroup_delete_cgroup : ℕ → Call
  cgroup_free : ℕ → Call
  cgroup_walk_tree_begin : Text → Text → Call
  cgroup_walk_tree_end : ℕ → Call
  statfs : Text → Call
  free : ℕ → Call
  calloc : Call
  open_mounts : Call
  fclose : ℕ → Call
  open_file : Text → Call
  close : ℤ → Call
  mkdir : Text → Call
  rmdir : Text → Call
  unlink : Text → Call
  bpf_obj_get : Text → Call
  bpf_link_detach : ℤ → Call
  ratelimit_bpf_open : Call
  ratelimit_bpf_load : ℕ → Call
  ratelimit_bpf_destroy : ℕ → Call
  bpf_map_fd : ℕ → Call
  bpf_map_update_elem : ℤ → ℕ → ℕ → Call
  bpf_program_attach_cgroup : ℕ → AttachType → ℤ → Call
  bpf_link_pin : ℕ → Text → Call
  bpf_link_destroy : ℕ → Call
  bpf_prog_query : ℤ → AttachType → Call
  bpf_prog_get_fd_by_id : ℕ → Call
  bpf_prog_get_info_by_fd : ℤ → Call
  bpf_map_get_fd_by_id : ℕ → Call
  read_behind : Call
  netlink_socket : Call
  list_memory : Call
  bpf_map_get_info_by_fd : ℤ → Call
  bpf_map_lookup_elem : ℤ → ℕ → Call
  pidfd_open : ℤ → Call
  socket : Call
  connect : ℤ → Text → Call
  set_timeout : ℤ → ℕ → Call
  lstat : Text → Call
  bind : ℤ → Text → Call
  listen : ℤ → Call
  notify : ℤ → Call
  set_signals : Call
  poll_all : List ℤ → Call
  accept : ℤ → Call
  get_peer_uid : ℤ → Call
  read_command : ℤ → Call
  write_command : ℤ → MonitorCmd → Call
  write_result : ℤ → ℤ → Call
  read_result : ℤ → Call
  pipe : Call
  fork : Call
  setsid : Call
  waitpid : ℤ → Call
  poll_ready : ℤ → ℕ → Call

-- What a call returns. `read_behind` is a read of an id behind the end of an array on the stack, where
-- any number may lie; `netlink_socket` and `list_memory` are the
-- descriptor and the heap blocks of the list of a discovery in which they are got. A call whose result the code ignores answers `Unit`.
abbrev pub Answer : Call → Type 0
Answer cgroup_init = ℤ
Answer (cgroup_get_subsys_mount_point controller) = Option (ℕ × Text)
Answer (cgroup_new_cgroup name) = Option ℕ
Answer (cgroup_create_cgroup cg) = LibcgCode
Answer cgroup_get_last_errno = Errno
Answer (cgroup_get_cgroup cg) = ℤ
Answer (cgroup_attach_task_pid cg pid) = ℤ
Answer (cgroup_delete_cgroup cg) = ℤ
Answer (cgroup_walk_tree_begin controller base) = ℕ × List FileInfo
Answer (statfs path) = Option FsType
Answer calloc = Option ℕ
Answer open_mounts = Option (ℕ × List (Text × Text))
Answer (open_file path) = ℤ
Answer (mkdir path) = Option Errno
Answer (bpf_obj_get path) = ℤ
Answer ratelimit_bpf_open = Option ℕ
Answer (ratelimit_bpf_load skel) = ℤ
Answer (bpf_map_fd skel) = ℤ
Answer (bpf_map_update_elem fd key value) = ℤ
Answer (bpf_program_attach_cgroup skel hook fd) = Option ℕ
Answer (bpf_link_pin link path) = ℤ
Answer (bpf_prog_query fd hook) = ProgQuery
Answer (bpf_prog_get_fd_by_id id) = ℤ
Answer read_behind = ℕ
Answer netlink_socket = ℕ
Answer list_memory = ℕ × ℕ
Answer (bpf_prog_get_info_by_fd fd) = ProgInfo
Answer (bpf_map_get_fd_by_id id) = ℤ
Answer (bpf_map_get_info_by_fd fd) = Option Text
Answer (bpf_map_lookup_elem fd key) = Option ℕ
Answer (pidfd_open pid) = ℤ
Answer socket = ℤ
Answer (connect fd path) = ℤ
Answer (lstat path) = Statted
Answer (bind fd path) = ℤ
Answer (listen fd) = ℤ
Answer (notify fd) = ℤ
Answer (poll_all fds) = Polled
Answer (accept fd) = ℤ
Answer (get_peer_uid fd) = Option ℕ
Answer (read_command fd) = Incoming
Answer (write_command fd msg) = ℤ
Answer (read_result fd) = Option ℤ
Answer pipe = Option (ℤ × ℤ)
Answer fork = ℤ
Answer (poll_ready fd timeout) = ℤ
Answer _ = Unit {0}
