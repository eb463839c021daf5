-- ===== src/Ratelimit/Attach.antt =====
-- lib/src/ratelimit.c: `attach_bpf_programs`.
pub mod Held
pub mod Pinned
pub mod Logged
pub mod Returns
use pidnl.Base.{
  ℕ, ℤ, is_zero, not, Text, List, [], ◌∷◌, ◌++◌, none, some, ◌==◌, if◌then◌else◌, snprintf,
}
use pidnl.System.{M, pure, ◌>>=◌, ◌>>◌, call, Call, AttachType, egress_hook, ingress_hook}
use pidnl.Bpf.{direction_upload, direction_download}
use pidnl.Ratelimit.Names.{path_max, slash, unlimited}
use pidnl.Ratelimit.Codes.{
  RatelimitCode, bpf_open, bpf_load, bpf_link, bpf_pin, RateLimitConfig, Fallible, failure, success,
}
use pidnl.Ratelimit.Cgroups.{egress_pin_name, ingress_pin_name}

-- An entry of `directions[]`; the hook stands for the program of the skeleton.
pub record Direction : Type 0 where
  pub pin_name : Text
  pub direction : ℕ
  pub limit_kbps : ℕ
  pub prog : AttachType

unfoldable pub directions : RateLimitConfig → List Direction
directions config =
    record {
      pin_name = egress_pin_name;
      direction = direction_upload;
      limit_kbps = config.upload_kbps;
      prog = egress_hook;
    }
    ∷ record {
      pin_name = ingress_pin_name;
      direction = direction_download;
      limit_kbps = config.download_kbps;
      prog = ingress_hook;
    }
    ∷ []

-- `ratelimit_bpf__destroy(skel)` and the return of an error
abandon : ℕ → RatelimitCode → M (Fallible ℕ)
abandon skel code = do call (Call.ratelimit_bpf_destroy skel); pure (failure code)

-- The loop over `directions[]`, from one entry on.
attach_directions : ℕ → ℤ → ℤ → Text → List Direction → M (Fallible ℕ)
unfolding abandon
attach_directions skel map_fd cgroup_fd pin_dir [] = pure (success skel)
attach_directions skel map_fd cgroup_fd pin_dir (d ∷ ds) =
    let next = attach_directions skel map_fd cgroup_fd pin_dir ds in
    if d.limit_kbps == unlimited then next else do
      updated ← call (Call.bpf_map_update_elem map_fd d.direction d.limit_kbps)
      if not (is_zero updated) then abandon skel bpf_load else do
        attached ← call (Call.bpf_program_attach_cgroup skel d.prog cgroup_fd)
        elim attached [
          | none ↦ abandon skel bpf_link
          | some link ↦ do
            ret ←
                call (Call.bpf_link_pin link (snprintf path_max (pin_dir ++ (slash ++ d.pin_name))))
            call (Call.bpf_link_destroy link)
            if is_zero ret then next else abandon skel bpf_pin
        ]

-- Hands out the skeleton, which the C code stores in `limiter->skel`.
unfoldable pub attach_bpf_programs : ℤ → Text → RateLimitConfig → M (Fallible ℕ)
unfolding attach_directions directions
attach_bpf_programs cgroup_fd pin_dir config = do
  opened ← call Call.ratelimit_bpf_open
  elim opened [
    | none ↦ pure (failure bpf_open)
    | some skel ↦ do
      loaded ← call (Call.ratelimit_bpf_load skel)
      if not (is_zero loaded) then abandon skel bpf_load else do
        map_fd ← call (Call.bpf_map_fd skel)
        attach_directions skel map_fd cgroup_fd pin_dir (directions config)
  ]
