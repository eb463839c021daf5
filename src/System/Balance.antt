-- ===== src/System/Balance.antt =====
-- The outcome and the resources of an operation in one statement.
use pidnl.Base.{◌+◌, ◌≡◌, arith}
use pidnl.System.{Process, Outcome, done, exited, running, M}
use pidnl.System.Ledger.{Resource, Settled, Uses, gained, dropped, stored}
use pidnl.System.Returns.{Condition, Suits, IsDone, Returns}

-- The operation has returned, and between its start and its end it has gained as much of the resource
-- as it has given up or stored in the table.
abbrev pub IsBalanced : {A : Type 0} → Resource → Process → Outcome A × Process → Type 0
IsBalanced r p (done a, p') =
    gained r p'.trace + dropped r p.trace + stored r p.watched_pids
    ≡ dropped r p'.trace + gained r p.trace + stored r p'.watched_pids
IsBalanced r p (exited n, p') = ⊥
IsBalanced r p (running, p') = ⊥

Settled-IsBalanced :
    {A : Type 0} (P : Condition) (r : Resource) (p : Process) (o : Outcome A × Process)
    → Settled r 0 (λ _. 0) p o
    → IsDone P o
    → IsBalanced r p o
Settled-IsBalanced P r p (done a, p') s d = omega arith
Settled-IsBalanced P r p (exited n, p') s d = d
Settled-IsBalanced P r p (running, p') s d = d

pub balance :
    {A : Type 0} {P : Condition} {r : Resource} {m : M A} (p : Process)
    → Uses r 0 m (λ _. 0)
    → Returns P m
    → Suits P p
    → IsBalanced r p (m p)
balance {P} {r} {m} p u v h = Settled-IsBalanced P r p (m p) (u.apply p) (v.apply p h)
