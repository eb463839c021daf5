-- ===== src/Gui/Protocol.antt =====
-- gui/backend.c and gui/main.c: the two ends of the protocol for limits.
use pidnl.Base.{
  ℕ, suc, ◌≤◌, ◌<◌, ◌≡◌, refl, ap, ◌∙◌, ℤ, pos, List, [], ◌∷◌, ◌++◌, Text, some, decimal, arith,
}
use pidnl.Cstd.{Parsed, skip_space, strtol, is_digit, int_max, uint32_max}
use pidnl.Cstd.Laws.{EndsNumber, strtol-decimal, skip_space-decimal}
use pidnl.Gui.{scan_longs, checked_request, limit_request, limit_line}

pub read-decimal :
    (k n : ℕ) (rest : Text) (values : List ℤ)
    → n ≤ uint32_max
    → EndsNumber rest
    → scan_longs k rest ≡ some values
    → scan_longs (suc k) (decimal n ++ rest) ≡ some (pos n ∷ values)
unfolding scan_longs
read-decimal k n rest values h e f =
    let read = ap strtol (skip_space-decimal n rest) ∙ strtol-decimal n rest (omega arith) e in
    rw (read, f) (ap (λ r. some (Parsed.value r ∷ values)) read)

-- A space in front changes nothing.
read-space :
    (k n : ℕ) (rest : Text)
    → scan_longs (suc k) (b' ' ∷ (decimal n ++ rest)) ≡ scan_longs (suc k) (decimal n ++ rest)
unfolding scan_longs skip_space
read-space k n rest = refl

-- The numbers behind a space.
read_next :
    (k n : ℕ) (rest : Text) (values : List ℤ)
    → n ≤ uint32_max
    → EndsNumber rest
    → scan_longs k rest ≡ some values
    → scan_longs (suc k) (b' ' ∷ (decimal n ++ rest)) ≡ some (pos n ∷ values)
read_next k n rest values h e f = read-space k n rest ∙ read-decimal k n rest values h e f

pub nothing_more : (rest : Text) → scan_longs 0 rest ≡ some []
unfolding scan_longs
nothing_more rest = refl

scan_longs-limit_line :
    (pid upload download : ℕ)
    → pid ≤ int_max
    → upload ≤ uint32_max
    → download ≤ uint32_max
    → scan_longs 4 (limit_line pid upload download)
      ≡ some (pos 1 ∷ pos pid ∷ pos upload ∷ pos download ∷ [])
unfolding limit_line is_digit
scan_longs-limit_line pid upload download b c d =
    let third = read_next 0 download (10 ∷ []) [] d refl (nothing_more _) in
    let second = read_next 1 upload _ _ c refl third in
    let first = read_next 2 pid _ _ (omega arith) refl second in
    read-decimal 3 1 _ _ (omega arith) refl first

-- The request that `backend_set_limit` writes for a PID from 1 to INT_MAX and two 32-bit limits is
-- the one that `handle_limit_cmd` reads.
pub limit_request-limit_line :
    (pid upload download : ℕ)
    → 0 < pid
    → pid ≤ int_max
    → upload ≤ uint32_max
    → download ≤ uint32_max
    → limit_request (limit_line pid upload download)
      ≡ some (record { pid = pos pid; upload = pos upload; download = pos download })
unfolding limit_request checked_request
limit_request-limit_line pid upload download a b c d =
    rw (scan_longs-limit_line pid upload download b c d, limit_request) (ground arith)
