-- ===== src/Ratelimit/Attach/Logged/Trail.antt =====
-- lib/src/ratelimit.c: the calls of `attach_bpf_programs` that count as its work, in a trace.
use mathlib.Core.Path.{subst}
use pidnl.Base.{
  ℕ, ◌≡◌, refl, sym, ap, ◌∙◌, ℤ, is_zero, Bool, true, false, Text, List, [], ◌∷◌, ◌++◌, none, some,
  ◌==◌, if◌then◌else◌, snprintf, append_assoc, append_nil,
}
use pidnl.System.{
  Process, Outcome, done, exited, running, M, pure, ◌>>=◌, call, Call, Answer, AttachType, event,
  Trace,
}
use pidnl.Ratelimit.Names.{path_max, slash, unlimited}
use pidnl.Ratelimit.Codes.{RatelimitCode, Fallible, failure, success}
use pidnl.Ratelimit.Attach.{Direction}

-- A limit written under a key, a program attached to a group, a link pinned under a path.
pub data Work : Type 0 where
  wrote : ℕ → ℕ → Work
  attached : AttachType → ℤ → Work
  pinned_at : Text → Work

unfoldable pub work_of : (c : Call) → Answer c → List Work
work_of (Call.bpf_map_update_elem fd key value) ret =
    if is_zero ret then wrote key value ∷ [] else []
work_of (Call.bpf_program_attach_cgroup skel hook fd) link = elim link [
  | none ↦ []
  | some l ↦ attached hook fd ∷ []
]
work_of (Call.bpf_link_pin link path) ret = if is_zero ret then pinned_at path ∷ [] else []
work_of _ a = []

-- The work of a trace, the newest first.
unfoldable pub works : Trace → List Work
unfolding work_of
works [] = []
works (event c a ∷ t) = work_of c a ++ works t

-- The work for a direction with a limit; one without a limit needs none.
unfoldable pub limit_work : ℤ → Text → Text → AttachType → ℕ → ℕ → List Work
limit_work cgroup_fd pin_dir pin_name hook key kbps =
    if kbps == unlimited
    then []
    else pinned_at (snprintf path_max (pin_dir ++ (slash ++ pin_name)))
      ∷ attached hook cgroup_fd
      ∷ wrote key kbps
      ∷ []

unfoldable pub work_for : ℤ → Text → Direction → List Work
unfolding limit_work
work_for cgroup_fd pin_dir d =
    limit_work cgroup_fd pin_dir d.pin_name d.prog d.direction d.limit_kbps

unfoldable pub work_for_all : ℤ → Text → List Direction → List Work
unfolding work_for
work_for_all cgroup_fd pin_dir [] = []
work_for_all cgroup_fd pin_dir (d ∷ ds) =
    work_for_all cgroup_fd pin_dir ds ++ work_for cgroup_fd pin_dir d

-- Has succeeded with this work, or has not succeeded.
unfoldable pub Logged : List Work → Process → Outcome (Fallible ℕ) × Process → Type 0
Logged ws p (done (success skel), p') = works p'.trace ≡ ws ++ works p.trace
Logged ws p _ = Unit

pub record Logs (ws : List Work) (m : M (Fallible ℕ)) : Type 0 where
  pub apply : (p : Process) → Logged ws p (m p)

pub later-Logged :
    (ws later now : List Work) (p q : Process) (o : Outcome (Fallible ℕ) × Process)
    → ws ≡ later ++ now
    → works q.trace ≡ now ++ works p.trace
    → Logged later q o
    → Logged ws p o
unfolding Logged
later-Logged ws later now p q (done (success skel), p') e h s =
    s
    ∙ (ap (λ t. later ++ t) h
        ∙ (sym (append_assoc later now (works p.trace)) ∙ ap (λ t. t ++ works p.trace) (sym e)))
later-Logged ws later now p q (done (failure code), p') e h s = tt
later-Logged ws later now p q (exited m, p') e h s = tt
later-Logged ws later now p q (running, p') e h s = tt

-- A call, and the work that is left behind it.
pub call-Logs :
    (c : Call) (f : Answer c → M (Fallible ℕ)) (ws : List Work) (later : Answer c → List Work)
    → ((a : Answer c) → ws ≡ later a ++ work_of c a)
    → ((a : Answer c) → Logs (later a) (f a))
    → Logs ws (call c >>= f)
unfolding call works
call-Logs c f ws later e u = record {
  apply = λ p.
      let a = p.env p.trace c in
      let q : Process = record p { trace = event c a ∷ p.trace } in
      later-Logged ws (later a) (work_of c a) p q (f a q) (e a) refl ((u a).apply q);
}

-- A call that does no work.
pub idle-Logs :
    (c : Call) (f : Answer c → M (Fallible ℕ)) (ws : List Work)
    → ((a : Answer c) → work_of c a ≡ [])
    → ((a : Answer c) → Logs ws (f a))
    → Logs ws (call c >>= f)
idle-Logs c f ws idle u =
    call-Logs c f ws (λ _. ws) (λ a. sym (ap (λ w. ws ++ w) (idle a) ∙ append_nil ws)) u

pub if-Logs :
    {m m' : M (Fallible ℕ)} (ws : List Work) (b : Bool)
    → (b ≡ true → Logs ws m)
    → (b ≡ false → Logs ws m')
    → Logs ws (if b then m else m')
if-Logs ws true u v = u refl
if-Logs ws false u v = v refl

pub failed-Logs : (ws : List Work) (code : RatelimitCode) → Logs ws (pure (failure code))
unfolding Logged
failed-Logs ws code = record { apply = λ p. tt }

-- A call with a status does its work if the status is 0.
abbrev pub left_if : Bool → List Work → Work → List Work
left_if true later w = later
left_if false later w = later ++ (w ∷ [])

pub left-split :
    (ok : Bool) (later : List Work) (w : Work)
    → later ++ (w ∷ []) ≡ left_if ok later w ++ (if ok then w ∷ [] else [])
left-split true later w = refl
left-split false later w = sym (append_nil (later ++ (w ∷ [])))

pub status-Logs :
    {m m' : M (Fallible ℕ)} (later : List Work) (w : Work) (ok : Bool)
    → Logs later m
    → Logs (later ++ (w ∷ [])) m'
    → Logs (left_if ok later w) (if ok then m else m')
status-Logs later w true u v = u
status-Logs later w false u v = v

pub same-Logs : {m : M (Fallible ℕ)} (ws ws' : List Work) → ws ≡ ws' → Logs ws m → Logs ws' m
same-Logs {m} ws ws' e u = subst (λ s. Logs s m) e u
