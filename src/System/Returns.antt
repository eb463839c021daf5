-- ===== src/System/Returns.antt =====
-- The outcome of an operation: returning, neither ending the process nor staying in the daemon's
-- loop, from a process whose environment and role satisfy a condition.
use pidnl.Base.{◌≡◌, refl, Bool, true, false, if◌then◌else◌}
use pidnl.System.{Env, Process, Outcome, done, exited, running, M, pure, resume, ◌>>=◌, call, Call}

-- A condition on the environment, and on whether the process is the daemon.
abbrev pub Condition : Type 1
Condition = Env → Bool → Type 0

abbrev pub Suits : Condition → Process → Type 0
Suits P p = P p.env p.is_monitor_process

abbrev pub anywhere : Condition
anywhere env daemon = Unit

abbrev pub IsDone : {A : Type 0} → Condition → Outcome A × Process → Type 0
IsDone P (done a, p) = Suits P p
IsDone P (exited n, p) = ⊥
IsDone P (running, p) = ⊥

pub record Returns {A : Type 0} (P : Condition) (m : M A) : Type 0 where
  pub apply : (p : Process) → Suits P p → IsDone P (m p)

module _ (P : Condition) where
  pub call-Returns : (c : Call) → Returns P (call c)
  unfolding call
  call-Returns c = record { apply = λ p h. h }

  pub pure-Returns : {A : Type 0} (a : A) → Returns P (pure a)
  pure-Returns a = record { apply = λ p h. h }

  resume-IsDone :
      {A B : Type 0} (f : A → M B) (o : Outcome A × Process)
      → IsDone P o
      → ((a : A) → Returns P (f a))
      → IsDone P (resume f o)
  resume-IsDone f (done a, p) h u = (u a).apply p h
  resume-IsDone f (exited n, p) h u = elim h [ ]
  resume-IsDone f (running, p) h u = elim h [ ]

  pub bind-Returns :
      {A B : Type 0} {m : M A} {f : A → M B}
      → Returns P m
      → ((a : A) → Returns P (f a))
      → Returns P (m >>= f)
  bind-Returns {m} {f} u v = record { apply = λ p h. resume-IsDone f (m p) (u.apply p h) v }

  -- A branch may use what its test tells.
  pub if-Returns :
      {A : Type 0} {m n : M A} (b : Bool)
      → (b ≡ true → Returns P m)
      → (b ≡ false → Returns P n)
      → Returns P (if b then m else n)
  if-Returns true u v = u refl
  if-Returns false u v = v refl

-- An operation that has returned has a result.
pub done-result :
    {A : Type 0} (P : Condition) (o : Outcome A × Process)
    → IsDone P o
    → (a : A) × (q : Process) × (o ≡ (done a, q))
done-result P (done a, q) d = (a, q, refl)
done-result P (exited n, q) d = elim d [ ]
done-result P (running, q) d = elim d [ ]
