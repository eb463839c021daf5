-- ===== src/Ratelimit/Query/Returns.antt =====
-- lib/src/ratelimit.c: the outcome of the query of the limits.
use pidnl.Base.{
  ℕ, zero, suc, ℤ, pos, negsuc, is_neg, is_pos, not, ◌||◌, ◌==◌, List, [], ◌∷◌, Option, none, some,
  take, arith,
}
use pidnl.System.{M, pure, call, Call, AttachType, egress_hook, ingress_hook}
use pidnl.System.Returns.{Condition, Returns, bind-Returns, if-Returns, pure-Returns, call-Returns}
use pidnl.Ratelimit.Names.{build_cgroup_name}
use pidnl.Ratelimit.Mounts.Returns.{open_cgroup_fd-Returns}
use pidnl.Ratelimit.Query.{
  name_eq, prog_name, read_map, map_ids_room, try_map, read_maps, read_limit_from_cgroup_progs,
  no_limits, get_rate_limits_from_cgroup,
}

module _ (P : Condition) where
  read_map-Returns : (hook : AttachType) (fd : ℤ) → Returns P (read_map hook fd)
  unfolding read_map call
  read_map-Returns hook fd = record { apply = λ p h. ground arith }

  first_of_maps :
      {m : M (Option ℕ)} (limit : Option ℕ)
      → Returns P m
      → Returns P (elim limit [ none ↦ m | some kbps ↦ pure (some kbps) ])
  first_of_maps none u = u
  first_of_maps (some kbps) u = pure-Returns P (some kbps)

  try_map-Returns :
      {next : M (Option ℕ)} (hook : AttachType) (id : ℕ)
      → Returns P next
      → Returns P (try_map hook id next)
  unfolding try_map
  try_map-Returns hook id u = bind-Returns P (call-Returns P (Call.bpf_map_get_fd_by_id id)) (elim [
    | pos fd ↦
        bind-Returns P (read_map-Returns hook (pos fd))
          λ limit. bind-Returns P (call-Returns P (Call.close (pos fd))) λ _. first_of_maps limit u
    | negsuc k ↦ u
  ])

  read_maps-Returns : (hook : AttachType) (n : ℕ) (ids : List ℕ) → Returns P (read_maps hook n ids)
  unfolding read_maps
  read_maps-Returns hook zero ids = pure-Returns P none
  read_maps-Returns hook (suc n) [] =
      bind-Returns P (call-Returns P Call.read_behind)
        λ id. try_map-Returns hook id (read_maps-Returns hook n [])
  read_maps-Returns hook (suc n) (id ∷ ids) = try_map-Returns hook id (read_maps-Returns hook n ids)

  pub read_limit-Returns :
      (fd : ℤ) (hook : AttachType) → Returns P (read_limit_from_cgroup_progs fd hook)
  unfolding read_limit_from_cgroup_progs
  read_limit-Returns fd hook =
      bind-Returns P (call-Returns P (Call.bpf_prog_query fd hook)) λ query.
        if-Returns P (is_neg query.ret || query.prog_cnt == 0) (λ _. pure-Returns P none)
          λ _. bind-Returns P (call-Returns P (Call.bpf_prog_get_fd_by_id query.prog_id)) (elim [
            | negsuc k ↦ pure-Returns P none
            | pos prog ↦
                bind-Returns P (call-Returns P (Call.bpf_prog_get_info_by_fd (pos prog))) λ info.
                  if-Returns P
                    (is_neg info.ret
                      || (not (name_eq info.name (prog_name hook)) || info.nr_map_ids == 0))
                    (λ _.
                      bind-Returns P (call-Returns P (Call.close (pos prog)))
                        λ _. pure-Returns P none)
                    λ _.
                      bind-Returns P
                        (read_maps-Returns hook info.nr_map_ids (take map_ids_room info.map_ids))
                        λ limit.
                          bind-Returns P (call-Returns P (Call.close (pos prog)))
                            λ _. pure-Returns P limit
          ])

  pub get_rate_limits_from_cgroup-Returns : (pid : ℤ) → Returns P (get_rate_limits_from_cgroup pid)
  unfolding get_rate_limits_from_cgroup
  get_rate_limits_from_cgroup-Returns pid =
      if-Returns P (not (is_pos pid)) (λ _. pure-Returns P no_limits)
        λ _. bind-Returns P (open_cgroup_fd-Returns P (build_cgroup_name pid 64)) (elim [
          | negsuc k ↦ pure-Returns P no_limits
          | pos fd ↦ bind-Returns P (read_limit-Returns (pos fd) egress_hook) λ upload.
              bind-Returns P (read_limit-Returns (pos fd) ingress_hook) λ download.
                bind-Returns P (call-Returns P (Call.close (pos fd))) λ _. pure-Returns P _
        ])
