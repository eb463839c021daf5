-- ===== src/System/Keeps.antt =====
-- What an operation does to the static variables of lib/src/monitor.c: a property of the table, its
-- count and the daemon's flag that holds before it holds after it, also where the process ends.
use pidnl.Base.{ℤ, Bool, true, false, List, if◌then◌else◌}
use pidnl.System.{
  PidfdEntry, Process, Outcome, done, exited, running, M, pure, resume, ◌>>=◌, call, Call, get,
}

abbrev pub Property : Type 1
Property = List PidfdEntry → ℤ → Bool → Type 0

abbrev pub Holds : Property → Process → Type 0
Holds I p = I p.watched_pids p.watched_count p.is_monitor_process

pub record Keeps {A : Type 0} (I : Property) (m : M A) : Type 0 where
  pub apply : (p : Process) → Holds I p → Holds I (m p).1

module _ (I : Property) where
  pub call-Keeps : (c : Call) → Keeps I (call c)
  unfolding call
  call-Keeps c = record { apply = λ p h. h }

  pub pure-Keeps : {A : Type 0} (a : A) → Keeps I (pure a)
  pure-Keeps a = record { apply = λ p h. h }

  pub get-Keeps : {A : Type 0} (f : Process → A) → Keeps I (get f)
  get-Keeps f = record { apply = λ p h. h }

  pub resume-Holds :
      {A B : Type 0} (f : A → M B) (o : Outcome A × Process)
      → Holds I o.1
      → ((a : A) → Keeps I (f a))
      → Holds I (resume f o).1
  resume-Holds f (done a, p) h k = (k a).apply p h
  resume-Holds f (exited n, p) h k = h
  resume-Holds f (running, p) h k = h

  pub bind-Keeps :
      {A B : Type 0} {m : M A} {f : A → M B}
      → Keeps I m
      → ((a : A) → Keeps I (f a))
      → Keeps I (m >>= f)
  bind-Keeps {m} {f} k l = record { apply = λ p h. resume-Holds f (m p) (k.apply p h) l }

  pub if-Keeps :
      {A : Type 0} {m n : M A} (b : Bool) → Keeps I m → Keeps I n → Keeps I (if b then m else n)
  if-Keeps true k l = k
  if-Keeps false k l = l
