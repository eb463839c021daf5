-- ===== src/Ratelimit/Groups.antt =====
-- lib/src/ratelimit.c: the names of the groups: `build_cgroup_name` writes them, and the walk of
-- `ratelimit_cleanup_all` reads them.
use pidnl.Base.{
  ℕ, zero, suc, ◌+◌, ◌/◌, ◌%◌, ◌^◌, ◌≤◌, ◌<◌, ◌≡◌, refl, sym, ap, ◌∙◌, pos, to_ℕ, true, false,
  Bool-cases, inl, inr, [], ◌∷◌, ◌++◌, Text, some, length, append_nil, take_all, digits, decimal,
  decimal_int, arith,
}
use pidnl.Cstd.{Parsed, strtol, int_max}
use pidnl.Cstd.Laws.{strtol-decimal}
use pidnl.Ratelimit.Names.{cgroup_name, slash, build_cgroup_name}
use pidnl.Ratelimit.Cleanup.{is_empty, walked_pid, pid_of_text}

empty_text : (s : Text) → is_empty s ≡ true → s ≡ []
empty_text [] h = refl
empty_text (c ∷ s) h = absurd (cc)

strtol_of_decimal :
    (n : ℕ)
    → n ≤ int_max
    → strtol (decimal n) ≡ record { value = pos n; rest = []; moved = true; range_error = false }
strtol_of_decimal n h = rw (append_nil (decimal n)) at (strtol-decimal n [] (omega arith) tt)

pid_of_text-decimal : (n : ℕ) → 0 < n → n ≤ int_max → pid_of_text (decimal n) ≡ some (pos n)
unfolding pid_of_text
pid_of_text-decimal n h k = rw (strtol_of_decimal n k) (ground arith)

strtol_of_nothing : (strtol []).value ≡ pos 0
unfolding strtol
strtol_of_nothing = refl

not_empty : (n : ℕ) → 0 < n → n ≤ int_max → is_empty (decimal n) ≡ false
not_empty n h k = elim (Bool-cases (is_empty (decimal n))) [
  | inr digits_there ↦ digits_there
  | inl empty ↦
      let read = ap (λ r. Parsed.value r) (strtol_of_decimal n k) in
      let nothing = ap (λ s. (strtol s).value) (empty_text (decimal n) empty) in
      let zero_read : n ≡ 0 = ap to_ℕ (sym read ∙ (nothing ∙ strtol_of_nothing)) in
      absurd (omega arith)
]

-- The walk takes a directory named by the decimal print of a PID from 1 to INT_MAX for that PID.
pub walked_pid-decimal :
    (n : ℕ)
    → 0 < n
    → n ≤ int_max
    → walked_pid (record { is_dir = true; path = decimal n }) ≡ some (pos n)
unfolding walked_pid
walked_pid-decimal n h k = rw (not_empty n h k, pid_of_text-decimal n h k)

-- A number below 10 ^ k has at most `k` digits.
length-digits :
    (k fuel n : ℕ) (out : Text) → n < 10 ^ suc k → length (digits fuel n out) ≤ suc k + length out
unfolding digits
length-digits k zero n out b = omega arith
length-digits zero (suc fuel) n out b = ground arith
length-digits (suc k) (suc fuel) n out b =
    ground (arith, length-digits k fuel (n / 10) ((b'0' + n % 10) ∷ out))

length-decimal : (n : ℕ) → n ≤ int_max → length (decimal n) ≤ 10
unfolding decimal
length-decimal n h = length-digits 9 (suc n) n [] (omega arith)

whole_name :
    (n : ℕ) → n ≤ int_max → build_cgroup_name (pos n) 64 ≡ cgroup_name ++ (slash ++ decimal n)
unfolding build_cgroup_name decimal_int
whole_name n h =
    take_all 63 (cgroup_name ++ (slash ++ decimal n)) (let l = length-decimal n h in omega arith)

-- What stands behind the six bytes of `pidnl/`.
behind_slash : Text → Text
behind_slash (a ∷ b ∷ c ∷ d ∷ e ∷ f ∷ s) = s
behind_slash _ = []

-- Two PIDs up to INT_MAX have different groups: 64 bytes are enough for the name.
pub build_cgroup_name-injective :
    (m n : ℕ)
    → m ≤ int_max
    → n ≤ int_max
    → build_cgroup_name (pos m) 64 ≡ build_cgroup_name (pos n) 64
    → m ≡ n
unfolding behind_slash
build_cgroup_name-injective m n h k e =
    let printed : decimal m ≡ decimal n =
      ap behind_slash (sym (whole_name m h) ∙ (e ∙ whole_name n k)) in
    let left = ap (λ r. Parsed.value r) (strtol_of_decimal m h) in
    let right = ap (λ r. Parsed.value r) (strtol_of_decimal n k) in
    ap to_ℕ (sym left ∙ (ap (λ s. (strtol s).value) printed ∙ right))
