-- ===== src/System/Ledger.antt =====
-- What a process holds: descriptors, libcgroup handles, libbpf objects, streams, walks and heap
-- blocks. `Uses` follows one resource through an operation, whatever the environment answers.
use pidnl.Base.{
  ℕ, ◌+◌, ◌≡◌, refl, ℤ, pos, negsuc, int_eq, Bool, true, false, Option, none, some, List, [], ◌∷◌,
  ◌==◌, if◌then◌else◌, arith,
}
use pidnl.System.{
  Call, Answer, event, Trace, PidfdEntry, Process, Outcome, done, exit, exited, running, M, resume,
  pure, ◌>>=◌, call,
}

pub data Resource : Type 0 where
  descriptor : ℤ → Resource
  group skeleton link block stream walk : ℕ → Resource

abbrev pub same : Resource → Resource → Bool
same (descriptor a) (descriptor b) = int_eq a b
same (group a) (group b) = a == b
same (skeleton a) (skeleton b) = a == b
same (link a) (link b) = a == b
same (block a) (block b) = a == b
same (stream a) (stream b) = a == b
same (walk a) (walk b) = a == b
same _ _ = false

-- 1 if it is the resource that is followed.
unfoldable pub tally : Resource → Resource → ℕ
tally r x = if same r x then 1 else 0

-- A negative descriptor is none.
abbrev pub fd_tally : Resource → ℤ → ℕ
fd_tally r (pos n) = tally r (descriptor (pos n))
fd_tally r (negsuc n) = 0

abbrev pub opt_tally : Resource → (ℕ → Resource) → Option ℕ → ℕ
opt_tally r kind none = 0
opt_tally r kind (some n) = tally r (kind n)

-- What a call hands out.
abbrev pub acquired : Resource → (c : Call) → Answer c → ℕ
acquired r (Call.open_file path) fd = fd_tally r fd
acquired r (Call.bpf_obj_get path) fd = fd_tally r fd
acquired r (Call.bpf_prog_get_fd_by_id id) fd = fd_tally r fd
acquired r (Call.bpf_map_get_fd_by_id id) fd = fd_tally r fd
acquired r (Call.pidfd_open pid) fd = fd_tally r fd
acquired r Call.socket fd = fd_tally r fd
acquired r (Call.accept listener) fd = fd_tally r fd
acquired r Call.pipe none = 0
acquired r Call.pipe (some (a, b)) = fd_tally r a + fd_tally r b
acquired r (Call.cgroup_new_cgroup name) cg = opt_tally r group cg
acquired r Call.ratelimit_bpf_open skel = opt_tally r skeleton skel
acquired r (Call.bpf_program_attach_cgroup skel hook fd) l = opt_tally r link l
acquired r Call.calloc p = opt_tally r block p
acquired r Call.netlink_socket fd = tally r (descriptor (pos fd))
acquired r Call.list_memory (list, processes) = tally r (block list) + tally r (block processes)
acquired r (Call.cgroup_get_subsys_mount_point controller) none = 0
acquired r (Call.cgroup_get_subsys_mount_point controller) (some (p, path)) = tally r (block p)
acquired r Call.open_mounts none = 0
acquired r Call.open_mounts (some (f, entries)) = tally r (stream f)
acquired r (Call.cgroup_walk_tree_begin controller base) (w, entries) = tally r (walk w)
acquired r _ a = 0

-- What a call takes back.
abbrev pub released : Resource → Call → ℕ
released r (Call.close fd) = fd_tally r fd
released r (Call.cgroup_free cg) = tally r (group cg)
released r (Call.ratelimit_bpf_destroy skel) = tally r (skeleton skel)
released r (Call.bpf_link_destroy l) = tally r (link l)
released r (Call.free p) = tally r (block p)
released r (Call.fclose f) = tally r (stream f)
released r (Call.cgroup_walk_tree_end w) = tally r (walk w)
released r _ = 0

-- How often a trace acquires and releases the resource.
abbrev pub gained : Resource → Trace → ℕ
gained r [] = 0
gained r (event c a ∷ h) = acquired r c a + gained r h

abbrev pub dropped : Resource → Trace → ℕ
dropped r [] = 0
dropped r (event c a ∷ h) = released r c + dropped r h

-- What the table of watched processes keeps: the descriptors of its active entries.
unfoldable pub stored : Resource → List PidfdEntry → ℕ
stored r [] = 0
stored r (e ∷ es) = (if e.active then fd_tally r e.pidfd else 0) + stored r es

-- At the end of a process the kernel takes back what is left.
abbrev pub Settled : {A : Type 0} → Resource → ℕ → (A → ℕ) → Process → Outcome A × Process → Type 0
Settled r held keep p (done a, p') =
    gained r p'.trace + dropped r p.trace + held + stored r p.watched_pids
    ≡ dropped r p'.trace + gained r p.trace + keep a + stored r p'.watched_pids
Settled r held keep p (exited n, p') = Unit
Settled r held keep p (running, p') = Unit

-- Run with `held` of the resource beside the table, the operation returns with `keep` of it beside
-- the table: whatever it acquires it releases, stores or hands out.
pub record Uses {A : Type 0} (r : Resource) (held : ℕ) (m : M A) (keep : A → ℕ) : Type 0 where
  pub apply : (p : Process) → Settled r held keep p (m p)

module _ (r : Resource) where
  pub call-Uses : (c : Call) → Uses r (released r c) (call c) (acquired r c)
  unfolding call
  call-Uses c = record { apply = λ p. omega arith }

  pub join-Settled :
      {A : Type 0} (held middle : ℕ) (keep : A → ℕ) (p p' : Process) (o : Outcome A × Process)
      → gained r p'.trace + dropped r p.trace + held + stored r p.watched_pids
        ≡ dropped r p'.trace + gained r p.trace + middle + stored r p'.watched_pids
      → Settled r middle keep p' o
      → Settled r held keep p o
  join-Settled held middle keep p p' (done a, q) e s = omega arith
  join-Settled held middle keep p p' (exited n, q) e s = tt
  join-Settled held middle keep p p' (running, q) e s = tt

  resume-Settled :
      {A B : Type 0} (held : ℕ) (mid : A → ℕ) (keep : B → ℕ) (f : A → M B) (p : Process)
      (o : Outcome A × Process)
      → Settled r held mid p o
      → ((a : A) → Uses r (mid a) (f a) keep)
      → Settled r held keep p (resume f o)
  resume-Settled held mid keep f p (done a, p') s u =
      join-Settled held (mid a) keep p p' (f a p') s ((u a).apply p')
  resume-Settled held mid keep f p (exited n, p') s u = tt
  resume-Settled held mid keep f p (running, p') s u = tt

  framed-Settled :
      {A : Type 0} (rest held : ℕ) (keep : A → ℕ) (p : Process) (o : Outcome A × Process)
      → Settled r held keep p o
      → Settled r (rest + held) (λ a. rest + keep a) p o
  framed-Settled rest held keep p (done a, p') s = omega arith
  framed-Settled rest held keep p (exited n, p') s = tt
  framed-Settled rest held keep p (running, p') s = tt

  -- An operation in front of others, with `rest` held beside what it uses itself.
  pub bind-Uses :
      {A B : Type 0} {own : ℕ} {mid : A → ℕ} {held : ℕ} {keep : B → ℕ} {m : M A} {f : A → M B}
      (rest : ℕ)
      → Uses r own m mid
      → held ≡ rest + own
      → ((a : A) → Uses r (rest + mid a) (f a) keep)
      → Uses r held (m >>= f) keep
  bind-Uses {own} {mid} {held} {keep} {m} {f} rest u e v = record {
    apply = λ p. rw e (
        resume-Settled (rest + own) (λ a. rest + mid a) keep f p (m p)
          (framed-Settled rest own mid p (m p) (u.apply p)) v);
  }

  settle :
      {A : Type 0} (rest own held : ℕ) (mid keep : A → ℕ) (p : Process) (o : Outcome A × Process)
      → held ≡ rest + own
      → ((a : A) → rest + mid a ≡ keep a)
      → Settled r own mid p o
      → Settled r held keep p o
  settle rest own held mid keep p (done a, p') e h s = omega (arith, h a)
  settle rest own held mid keep p (exited n, p') e h s = tt
  settle rest own held mid keep p (running, p') e h s = tt

  -- The last operation of a sequence.
  pub last-Uses :
      {A : Type 0} {own : ℕ} {mid : A → ℕ} {held : ℕ} {keep : A → ℕ} {m : M A} (rest : ℕ)
      → Uses r own m mid
      → held ≡ rest + own
      → ((a : A) → rest + mid a ≡ keep a)
      → Uses r held m keep
  last-Uses {own} {mid} {held} {keep} {m} rest u e h = record {
    apply = λ p. settle rest own held mid keep p (m p) e h (u.apply p);
  }

  pub pure-Uses :
      {A : Type 0} {held : ℕ} {keep : A → ℕ} (a : A) → held ≡ keep a → Uses r held (pure a) keep
  pure-Uses a e = record { apply = λ p. omega arith }

  -- A branch may use what its test tells.
  pub if-Uses :
      {A : Type 0} {held : ℕ} {keep : A → ℕ} {m n : M A} (b : Bool)
      → (b ≡ true → Uses r held m keep)
      → (b ≡ false → Uses r held n keep)
      → Uses r held (if b then m else n) keep
  if-Uses true u v = u refl
  if-Uses false u v = v refl

  ended-Uses :
      {A B : Type 0} (n held : ℕ) (keep : B → ℕ) (p : Process) (o : Outcome A × Process)
      → Settled {A = B} r held keep p (resume (λ _. exit n) o)
  ended-Uses n held keep p (done a, p') = tt
  ended-Uses n held keep p (exited m, p') = tt
  ended-Uses n held keep p (running, p') = tt

  -- What ends the process never returns.
  pub exit-Uses :
      {A B : Type 0} {held : ℕ} {keep : B → ℕ} (m : M A) (n : ℕ)
      → Uses r held (m >>= (λ _. exit n)) keep
  exit-Uses {held} {keep} m n = record { apply = λ p. ended-Uses n held keep p (m p) }
