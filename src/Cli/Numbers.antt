-- ===== src/Cli/Numbers.antt =====
-- cli/main.c: the numbers that `parse_pid` and `parse_rate` accept.
use pidnl.Base.{
  ℕ, ◌≤◌, ◌<◌, ◌≡◌, refl, sym, ap, ◌∙◌, pos, false, [], codes, text_eq, text_eq_iff, append_nil,
  some, ◌==◌, decimal, Bool-cases, inl, inr, arith,
}
use pidnl.Cstd.{Parsed, strtoul, int_max, uint32_max}
use pidnl.Cstd.Laws.{strtol-decimal, strtoul-decimal}
use pidnl.Ratelimit.Names.{unlimited}
use pidnl.Cli.Parse.{parse_rate, parse_pid, format_limit}

-- `parse_pid` reads back the decimal print of every number from 1 to INT_MAX.
pub parse_pid-decimal : (n : ℕ) → 0 < n → n ≤ int_max → parse_pid (decimal n) ≡ some (pos n)
unfolding parse_pid
parse_pid-decimal n h k =
    let e = rw (append_nil (decimal n)) at (strtol-decimal n [] (omega arith) tt) in
    rw (e) (ground arith)

strtoul_minus_one : (strtoul (codes "-1")).value ≡ 18446744073709551615
unfolding strtoul
strtoul_minus_one = refl

not_minus_one : (n : ℕ) → n ≤ uint32_max → text_eq (decimal n) (codes "-1") ≡ false
not_minus_one n k = elim (Bool-cases (text_eq (decimal n) (codes "-1"))) [
  | inr differ ↦ differ
  | inl same ↦
      let printed = rw (append_nil (decimal n)) at (strtoul-decimal n [] (omega arith) tt) in
      let read = ap (λ r. Parsed.value r) printed in
      let minus = ap (λ s. (strtoul s).value) ((text_eq_iff (decimal n) (codes "-1")).0 same) in
      let no : n ≡ 18446744073709551615 = sym read ∙ (minus ∙ strtoul_minus_one) in
      absurd (omega arith)
]

parse_rate-decimal : (n : ℕ) → n ≤ uint32_max → parse_rate (decimal n) ≡ some n
unfolding parse_rate
parse_rate-decimal n k =
    let e = rw (append_nil (decimal n)) at (strtoul-decimal n [] (omega arith) tt) in
    rw (not_minus_one n k, e) (ground arith)

-- `parse_rate` reads back what `list` prints for a limit, unless the limit is RATELIMIT_UNLIMITED.
pub parse_rate-format_limit :
    (kbps : ℕ) → kbps < unlimited → parse_rate (format_limit kbps) ≡ some kbps
unfolding format_limit
parse_rate-format_limit kbps h = elim (Bool-cases (kbps == unlimited)) [
  | inl same ↦ absurd (ground arith)
  | inr less ↦ rw (less) (parse_rate-decimal kbps (omega arith))
]
