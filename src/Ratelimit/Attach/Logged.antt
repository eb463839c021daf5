-- ===== src/Ratelimit/Attach/Logged.antt =====
-- lib/src/ratelimit.c: the limits that `attach_bpf_programs` writes, the programs that it attaches and
-- the links that it pins.
pub mod Trail
use pidnl.Base.{
  ℕ, ◌≡◌, refl, sym, ◌∙◌, ℤ, is_zero, not, Bool-cases, inl, inr, Text, List, [], ◌∷◌, ◌++◌, Option,
  none, some, ◌==◌, if◌then◌else◌, snprintf, append_assoc, append_nil,
}
use pidnl.System.{Process, done, M, pure, ◌>>=◌, call, Call, AttachType, egress_hook, ingress_hook}
use pidnl.Bpf.{direction_upload, direction_download}
use pidnl.Ratelimit.Cgroups.{egress_pin_name, ingress_pin_name}
use pidnl.Ratelimit.Names.{path_max, slash, unlimited}
use pidnl.Ratelimit.Codes.{
  RatelimitCode, bpf_open, bpf_load, bpf_pin, bpf_link, RateLimitConfig, Fallible, success,
}
use pidnl.Ratelimit.Attach.{Direction, directions, abandon, attach_directions, attach_bpf_programs}
use pidnl.Ratelimit.Attach.Logged.Trail.{
  Work, wrote, attached, pinned_at, work_of, works, limit_work, work_for, work_for_all, Logged,
  Logs, call-Logs, idle-Logs, if-Logs, failed-Logs, left_if, left-split, status-Logs, same-Logs,
}

abandon-Logs : (ws : List Work) (skel : ℕ) (code : RatelimitCode) → Logs ws (abandon skel code)
unfolding abandon call Logged
abandon-Logs ws skel code = record { apply = λ p. tt }

pin-Logs :
    (skel l : ℕ) (path : Text) (next : M (Fallible ℕ)) (later : List Work)
    → Logs later next
    → Logs (later ++ (pinned_at path ∷ [])) (
        call (Call.bpf_link_pin l path) >>= (λ ret.
          call (Call.bpf_link_destroy l)
          >>= (λ _. if is_zero ret then next else abandon skel bpf_pin)))
unfolding work_of
pin-Logs skel l path next later u =
    let w = pinned_at path in
    call-Logs (Call.bpf_link_pin l path) _ (later ++ (w ∷ []))
      (λ ret. left_if (is_zero ret) later w) (λ ret. left-split (is_zero ret) later w)
      λ ret.
        idle-Logs (Call.bpf_link_destroy l) _ (left_if (is_zero ret) later w) (λ a. refl)
          λ _. status-Logs later w (is_zero ret) u (abandon-Logs (later ++ (w ∷ [])) skel bpf_pin)

link-Logs :
    (skel : ℕ) (hook : AttachType) (fd : ℤ) (f : Option ℕ → M (Fallible ℕ)) (later : List Work)
    → Logs (later ++ (attached hook fd ∷ [])) (f none)
    → ((l : ℕ) → Logs later (f (some l)))
    → Logs
        (later ++ (attached hook fd ∷ []))
        (call (Call.bpf_program_attach_cgroup skel hook fd) >>= f)
unfolding work_of
link-Logs skel hook fd f later fails u =
    let ws = later ++ (attached hook fd ∷ []) in
    call-Logs (Call.bpf_program_attach_cgroup skel hook fd) f ws
      (elim [ none ↦ ws | some l ↦ later ]) (elim [ none ↦ sym (append_nil ws) | some l ↦ refl ])
      (elim [ none ↦ fails | some l ↦ u l ])

update-Logs :
    (skel key value : ℕ) (map_fd : ℤ) (next : M (Fallible ℕ)) (later : List Work)
    → Logs later next
    → Logs (later ++ (wrote key value ∷ [])) (
        call (Call.bpf_map_update_elem map_fd key value)
        >>= (λ updated. if not (is_zero updated) then abandon skel bpf_load else next))
unfolding work_of
update-Logs skel key value map_fd next later u =
    let w = wrote key value in
    call-Logs (Call.bpf_map_update_elem map_fd key value) _ (later ++ (w ∷ []))
      (λ ret. left_if (is_zero ret) later w) (λ ret. left-split (is_zero ret) later w)
      λ ret. elim (Bool-cases (is_zero ret)) [
        | inl ok ↦ rw (ok) u
        | inr fails ↦ rw (fails) (abandon-Logs (later ++ (w ∷ [])) skel bpf_load)
      ]

one_by_one :
    (later : List Work) (p a w : Work)
    → ((later ++ (p ∷ [])) ++ (a ∷ [])) ++ (w ∷ []) ≡ later ++ (p ∷ a ∷ w ∷ [])
one_by_one later p a w = simp append_assoc

nothing-Logs : (skel : ℕ) → Logs [] (pure (success skel))
unfolding Logged
nothing-Logs skel = record { apply = λ p. refl }

attach_directions-Logs :
    (skel : ℕ) (map_fd cgroup_fd : ℤ) (pin_dir : Text) (ds : List Direction)
    → Logs (work_for_all cgroup_fd pin_dir ds) (attach_directions skel map_fd cgroup_fd pin_dir ds)
unfolding attach_directions work_for_all work_for limit_work
attach_directions-Logs skel map_fd cgroup_fd pin_dir [] = nothing-Logs skel
attach_directions-Logs skel map_fd cgroup_fd pin_dir (d ∷ ds) =
    let later = work_for_all cgroup_fd pin_dir ds in
    let next = attach_directions-Logs skel map_fd cgroup_fd pin_dir ds in
    let path = snprintf path_max (pin_dir ++ (slash ++ d.pin_name)) in
    let p = pinned_at path in
    let a = attached d.prog cgroup_fd in
    elim (Bool-cases (d.limit_kbps == unlimited)) [
      | inl no_limit ↦ rw (no_limit) (same-Logs later (later ++ []) (sym (append_nil later)) next)
      | inr has_limit ↦ rw (has_limit) (
          same-Logs _ _ (one_by_one later p a (wrote d.direction d.limit_kbps)) (
            update-Logs skel d.direction d.limit_kbps map_fd _ ((later ++ (p ∷ [])) ++ (a ∷ [])) (
              link-Logs skel d.prog cgroup_fd _ (later ++ (p ∷ [])) (abandon-Logs _ skel bpf_link)
                λ l. pin-Logs skel l path _ later next)))
    ]

attach-Logs :
    (cgroup_fd : ℤ) (pin_dir : Text) (config : RateLimitConfig)
    → Logs
        (work_for_all cgroup_fd pin_dir (directions config))
        (attach_bpf_programs cgroup_fd pin_dir config)
unfolding attach_bpf_programs work_of
attach-Logs cgroup_fd pin_dir config =
    let ws = work_for_all cgroup_fd pin_dir (directions config) in
    idle-Logs Call.ratelimit_bpf_open _ ws (λ a. refl)
      (elim [
        | none ↦ failed-Logs ws bpf_open
        | some skel ↦
            idle-Logs (Call.ratelimit_bpf_load skel) _ ws (λ a. refl)
              λ loaded.
                if-Logs ws (not (is_zero loaded)) (λ _. abandon-Logs ws skel bpf_load)
                  λ _.
                    idle-Logs (Call.bpf_map_fd skel) _ ws (λ a. refl)
                      λ map_fd.
                        attach_directions-Logs skel map_fd cgroup_fd pin_dir (directions config)
      ])

-- The upload's work is done first, so the download's is newer.
work_for_all-directions :
    (cgroup_fd : ℤ) (pin_dir : Text) (config : RateLimitConfig) (ws : List Work)
    → work_for_all cgroup_fd pin_dir (directions config) ++ ws
      ≡ limit_work cgroup_fd pin_dir ingress_pin_name ingress_hook direction_download
          config.download_kbps
        ++ (limit_work cgroup_fd pin_dir egress_pin_name egress_hook direction_upload
              config.upload_kbps
            ++ ws)
unfolding work_for_all work_for directions
work_for_all-directions cgroup_fd pin_dir config ws = append_assoc _ _ ws

-- Where the function succeeds, its work is this and no other, the newest first: for the upload, then
-- for the download, the limit is written under the key of the direction, the program of the
-- direction is attached to the group, and the link is pinned in the directory under the name of the
-- direction; a direction without a limit gets nothing.
pub attach_bpf_programs-works :
    (cgroup_fd : ℤ) (pin_dir : Text) (config : RateLimitConfig) (p q : Process) (skel : ℕ)
    → attach_bpf_programs cgroup_fd pin_dir config p ≡ (done (success skel), q)
    → works q.trace
      ≡ limit_work cgroup_fd pin_dir ingress_pin_name ingress_hook direction_download
          config.download_kbps
        ++ (limit_work cgroup_fd pin_dir egress_pin_name egress_hook direction_upload
              config.upload_kbps
            ++ works p.trace)
unfolding Logged
attach_bpf_programs-works cgroup_fd pin_dir config p q skel h =
    rw h at ((attach-Logs cgroup_fd pin_dir config).apply p)
    ∙ work_for_all-directions cgroup_fd pin_dir config (works p.trace)
