-- ===== src/Ratelimit/Query/Held.antt =====
-- lib/src/ratelimit.c: the resources of the query of the limits.
use pidnl.Base.{
  ℕ, zero, suc, ℤ, pos, negsuc, is_neg, is_pos, not, ◌||◌, ◌==◌, List, [], ◌∷◌, Option, none, some,
  take, arith,
}
use pidnl.System.{M, pure, call, Call, AttachType, egress_hook, ingress_hook}
use pidnl.System.Ledger.{
  Resource, descriptor, tally, Uses, bind-Uses, last-Uses, if-Uses, pure-Uses, call-Uses,
}
use pidnl.Ratelimit.Names.{build_cgroup_name}
use pidnl.Ratelimit.Mounts.Held.{open_cgroup_fd-Uses}
use pidnl.Ratelimit.Query.{
  name_eq, prog_name, read_map, map_ids_room, try_map, read_maps, read_limit_from_cgroup_progs,
  no_limits, get_rate_limits_from_cgroup,
}

module _ (r : Resource) where
  read_map-Uses : (hook : AttachType) (fd : ℤ) → Uses r 0 (read_map hook fd) (λ _. 0)
  unfolding read_map call
  read_map-Uses hook fd = record { apply = λ p. ground arith }

  first_of_maps :
      {m : M (Option ℕ)} (limit : Option ℕ)
      → Uses r 0 m (λ _. 0)
      → Uses r 0 (elim limit [ none ↦ m | some kbps ↦ pure (some kbps) ]) (λ _. 0)
  first_of_maps none u = u
  first_of_maps (some kbps) u = pure-Uses r (some kbps) (omega arith)

  try_map-Uses :
      {next : M (Option ℕ)} (hook : AttachType) (id : ℕ)
      → Uses r 0 next (λ _. 0)
      → Uses r 0 (try_map hook id next) (λ _. 0)
  unfolding try_map
  try_map-Uses hook id u =
      bind-Uses r 0 (call-Uses r (Call.bpf_map_get_fd_by_id id)) (omega arith) (elim [
        | pos fd ↦
            bind-Uses r (tally r (descriptor (pos fd))) (read_map-Uses hook (pos fd)) (omega arith)
              λ limit.
                bind-Uses r 0 (call-Uses r (Call.close (pos fd))) (omega arith)
                  λ _. first_of_maps limit u
        | negsuc k ↦ last-Uses r 0 u (omega arith) (λ a. omega arith)
      ])

  read_maps-Uses :
      (hook : AttachType) (n : ℕ) (ids : List ℕ) → Uses r 0 (read_maps hook n ids) (λ _. 0)
  unfolding read_maps
  read_maps-Uses hook zero ids = pure-Uses r none (omega arith)
  read_maps-Uses hook (suc n) [] =
      bind-Uses r 0 (call-Uses r Call.read_behind) (omega arith)
        λ id. try_map-Uses hook id (read_maps-Uses hook n [])
  read_maps-Uses hook (suc n) (id ∷ ids) = try_map-Uses hook id (read_maps-Uses hook n ids)

  pub read_limit-Uses :
      (fd : ℤ) (hook : AttachType) → Uses r 0 (read_limit_from_cgroup_progs fd hook) (λ _. 0)
  unfolding read_limit_from_cgroup_progs
  read_limit-Uses fd hook =
      bind-Uses r 0 (call-Uses r (Call.bpf_prog_query fd hook)) (omega arith) λ query.
        if-Uses r (is_neg query.ret || query.prog_cnt == 0) (λ _. pure-Uses r none (omega arith))
          λ _.
            bind-Uses r 0 (call-Uses r (Call.bpf_prog_get_fd_by_id query.prog_id)) (omega arith)
              (elim [
                | negsuc k ↦ pure-Uses r none (omega arith)
                | pos prog ↦
                    let own = tally r (descriptor (pos prog)) in
                    bind-Uses r own (call-Uses r (Call.bpf_prog_get_info_by_fd (pos prog)))
                      (omega arith)
                      λ info.
                        if-Uses r
                          (is_neg info.ret
                            || (not (name_eq info.name (prog_name hook)) || info.nr_map_ids == 0))
                          (λ _.
                            bind-Uses r 0 (call-Uses r (Call.close (pos prog))) (omega arith)
                              λ _. pure-Uses r none (omega arith))
                          λ _.
                            bind-Uses r own
                              (read_maps-Uses hook info.nr_map_ids (take map_ids_room info.map_ids))
                              (omega arith)
                              λ limit.
                                bind-Uses r 0 (call-Uses r (Call.close (pos prog))) (omega arith)
                                  λ _. pure-Uses r limit (omega arith)
              ])

  pub get_rate_limits_from_cgroup-Uses :
      (pid : ℤ) → Uses r 0 (get_rate_limits_from_cgroup pid) (λ _. 0)
  unfolding get_rate_limits_from_cgroup
  get_rate_limits_from_cgroup-Uses pid =
      if-Uses r (not (is_pos pid)) (λ _. pure-Uses r no_limits (omega arith))
        λ _. bind-Uses r 0 (open_cgroup_fd-Uses r (build_cgroup_name pid 64)) (omega arith) (elim [
          | negsuc k ↦ pure-Uses r no_limits (omega arith)
          | pos fd ↦
              let own = tally r (descriptor (pos fd)) in
              bind-Uses r own (read_limit-Uses (pos fd) egress_hook) (omega arith) λ upload.
                bind-Uses r own (read_limit-Uses (pos fd) ingress_hook) (omega arith) λ download.
                  bind-Uses r 0 (call-Uses r (Call.close (pos fd))) (omega arith)
                    λ _. pure-Uses r _ (omega arith)
        ])
