-- ===== src/Ratelimit/Query.antt =====
-- lib/src/ratelimit.c: `read_limit_from_cgroup_progs` and `get_rate_limits_from_cgroup`.
pub mod Held
pub mod Returns
use pidnl.Base.{
  ℕ, zero, suc, ℤ, is_neg, is_pos, Bool, true, false, not, ◌||◌, List, [], ◌∷◌, Text, codes,
  text_eq, take, Option, none, some, ◌==◌, if◌then◌else◌,
}
use pidnl.System.{M, pure, ◌>>=◌, ◌>>◌, call, Call, AttachType, egress_hook, ingress_hook}
use pidnl.Bpf.{direction_upload, direction_download}
use pidnl.Ratelimit.Names.{build_cgroup_name, unlimited}
use pidnl.Ratelimit.Mounts.{open_cgroup_fd}

-- BPF_OBJ_NAME_LEN
abbrev obj_name_len : ℕ
obj_name_len = 16

-- `strncmp(s, t, BPF_OBJ_NAME_LEN) == 0`
abbrev name_eq : Text → Text → Bool
name_eq s t = text_eq (take obj_name_len s) (take obj_name_len t)

abbrev pub prog_name : AttachType → Text
prog_name egress_hook = codes "egress_rl"
prog_name ingress_hook = codes "ingress_rl"

abbrev pub direction_key : AttachType → ℕ
direction_key egress_hook = direction_upload
direction_key ingress_hook = direction_download

abbrev pub rate_limits_map_name : Text
rate_limits_map_name = codes "rate_limits"

-- The name of the map that a descriptor stands for, if it is the map of the limits.
is_limits_map : Option Text → Bool
is_limits_map none = false
is_limits_map (some name) = name_eq name rate_limits_map_name

-- The value for the key, if the map is the one of the limits.
read_map : AttachType → ℤ → M (Option ℕ)
unfolding is_limits_map
read_map hook map_fd = do
  info ← call (Call.bpf_map_get_info_by_fd map_fd)
  if is_limits_map info
      then call (Call.bpf_map_lookup_elem map_fd (direction_key hook))
      else pure none

-- The body of the loop, with the later rounds.
try_map : AttachType → ℕ → M (Option ℕ) → M (Option ℕ)
unfolding read_map
try_map hook id next = do
  map_fd ← call (Call.bpf_map_get_fd_by_id id)
  if is_neg map_fd then next else do
    limit ← read_map hook map_fd
    call (Call.close map_fd)
    elim limit [ none ↦ next | some kbps ↦ pure (some kbps) ]

-- The ids that `map_ids` has room for.
abbrev map_ids_room : ℕ
map_ids_room = 2

-- The loop over the maps of the program. Where the program has more maps than `map_ids` has room for,
-- the loop reads behind the array, and goes on with what it finds there.
read_maps : AttachType → ℕ → List ℕ → M (Option ℕ)
unfolding try_map
read_maps hook zero ids = pure none
read_maps hook (suc n) [] =
    let next = read_maps hook n [] in (do id ← call Call.read_behind; try_map hook id next)
read_maps hook (suc n) (id ∷ ids) = let next = read_maps hook n ids in try_map hook id next

unfoldable pub read_limit_from_cgroup_progs : ℤ → AttachType → M (Option ℕ)
unfolding read_maps
read_limit_from_cgroup_progs cgroup_fd hook = do
  query ← call (Call.bpf_prog_query cgroup_fd hook)
  if is_neg query.ret || query.prog_cnt == 0 then pure none else do
    prog_fd ← call (Call.bpf_prog_get_fd_by_id query.prog_id)
    if is_neg prog_fd then pure none else do
      info ← call (Call.bpf_prog_get_info_by_fd prog_fd)
      if is_neg info.ret || (not (name_eq info.name (prog_name hook)) || info.nr_map_ids == 0)
          then call (Call.close prog_fd) >> pure none
          else do
            limit ← read_maps hook info.nr_map_ids (take map_ids_room info.map_ids)
            call (Call.close prog_fd)
            pure limit

abbrev pub or_unlimited : Option ℕ → ℕ
or_unlimited none = unlimited
or_unlimited (some kbps) = kbps

-- What the function returns, and the two limits that it writes.
pub record Limits : Type 0 where
  pub ok : Bool
  pub upload_kbps : ℕ
  pub download_kbps : ℕ

abbrev pub no_limits : Limits
no_limits = record { ok = false; upload_kbps = unlimited; download_kbps = unlimited }

unfoldable pub get_rate_limits_from_cgroup : ℤ → M Limits
get_rate_limits_from_cgroup pid = if not (is_pos pid) then pure no_limits else do
  cgroup_fd ← open_cgroup_fd (build_cgroup_name pid 64)
  if is_neg cgroup_fd then pure no_limits else do
    upload ← read_limit_from_cgroup_progs cgroup_fd egress_hook
    download ← read_limit_from_cgroup_progs cgroup_fd ingress_hook
    call (Call.close cgroup_fd)
    pure (record {
      ok = true;
      upload_kbps = or_unlimited upload;
      download_kbps = or_unlimited download;
    })
