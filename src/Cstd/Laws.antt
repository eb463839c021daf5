-- ===== src/Cstd/Laws.antt =====
-- What the parsers return on the decimal prints of numbers.
use pidnl.Base.{
  Bool-cases, inl, inr, ltb→lt, ℕ, zero, suc, ◌+◌, ◌*◌, ◌/◌, ◌%◌, ◌≤◌, ◌<◌, ◌≡◌, refl, pos, Bool,
  true, false, [], ◌∷◌, ◌++◌, Text, digits, decimal, ltb, arith,
}
use pidnl.Cstd.{
  is_digit, skip_space, scan_digits, scan_signed, strtol, strtoul, long_max, ulong_max,
}

-- A rest that no digit continues.
abbrev pub EndsNumber : Text → Type 0
EndsNumber [] = Unit
EndsNumber (c ∷ s) = is_digit c ≡ false

scan_end :
    (n : ℕ) (rest : Text)
    → EndsNumber rest
    → scan_digits true n rest ≡ record { any = true; value = n; rest = rest }
unfolding scan_digits
scan_end n [] e = refl
scan_end n (c ∷ s) e = rw e

scan_last :
    (any : Bool) (m d : ℕ) (rest : Text)
    → d < 10
    → scan_digits any m ((b'0' + d) ∷ rest) ≡ scan_digits true (m * 10 + d) rest
unfolding scan_digits
scan_last any m d rest h = ground arith

-- The printed digits of `n` in front of `out` are read as `n`, with fuel above `n`.
scan-digits :
    (fuel n : ℕ) (out : Text)
    → n < fuel
    → scan_digits false 0 (digits fuel n out) ≡ scan_digits true n out
unfolding digits
scan-digits zero n out h = absurd (omega arith)
scan-digits (suc fuel) n out h = ground (
  arith,
  scan-digits fuel (n / 10) ((b'0' + n % 10) ∷ out),
  scan_last true (n / 10) (n % 10) out,
  scan_last false 0 n out,
)

digit_head :
    (d : ℕ) (s : Text)
    → d < 10
    → (skip_space ((b'0' + d) ∷ s) ≡ (b'0' + d) ∷ s)
      × (scan_signed ((b'0' + d) ∷ s) ≡ (false, scan_digits false 0 ((b'0' + d) ∷ s)))
unfolding skip_space scan_signed
digit_head d s h = (ground arith, ground arith)

-- A print begins with a digit, so neither white space nor a sign is taken off.
digits_head :
    (fuel n : ℕ) (out : Text)
    → n < fuel
    → (skip_space (digits fuel n out) ≡ digits fuel n out)
      × (scan_signed (digits fuel n out) ≡ (false, scan_digits false 0 (digits fuel n out)))
unfolding digits
digits_head zero n out h = absurd (omega arith)
digits_head (suc fuel) n out h = elim (Bool-cases (ltb n 10)) [
  | inl one ↦ rw one (digit_head n out (ltb→lt n 10 one))
  | inr more ↦ rw more (digits_head fuel (n / 10) ((b'0' + n % 10) ∷ out) (ground arith))
]

digits-append :
    (fuel n : ℕ) (out rest : Text) → digits fuel n out ++ rest ≡ digits fuel n (out ++ rest)
unfolding digits
digits-append zero n out rest = refl
digits-append (suc fuel) n out rest =
    ground (arith, digits-append fuel (n / 10) ((b'0' + n % 10) ∷ out) rest)

-- `strtol` reads back what `%ld` printed, and stops behind it.
pub strtol-decimal :
    (n : ℕ) (rest : Text)
    → n ≤ long_max
    → EndsNumber rest
    → strtol (decimal n ++ rest)
      ≡ record { value = pos n; rest = rest; moved = true; range_error = false }
unfolding strtol decimal
strtol-decimal n rest h e =
    let same = digits-append (suc n) n [] rest in
    let (no_space, no_sign) = digits_head (suc n) n rest (omega arith) in
    rw (same, no_space, no_sign, scan-digits (suc n) n rest (omega arith), scan_end n rest e)
      (ground arith)

-- So does `strtoul`.
pub strtoul-decimal :
    (n : ℕ) (rest : Text)
    → n ≤ ulong_max
    → EndsNumber rest
    → strtoul (decimal n ++ rest)
      ≡ record { value = n; rest = rest; moved = true; range_error = false }
unfolding strtoul decimal
strtoul-decimal n rest h e =
    let same = digits-append (suc n) n [] rest in
    let (no_space, no_sign) = digits_head (suc n) n rest (omega arith) in
    rw (same, no_space, no_sign, scan-digits (suc n) n rest (omega arith), scan_end n rest e)
      (ground arith)

-- No white space is skipped in front of a print.
pub skip_space-decimal : (n : ℕ) (rest : Text) → skip_space (decimal n ++ rest) ≡ decimal n ++ rest
unfolding decimal
skip_space-decimal n rest =
    rw (digits-append (suc n) n [] rest) ((digits_head (suc n) n rest (omega arith)).0)
