-- ===== src/Cstd.antt =====
-- The C library's number parsers in base 10, as the program uses them on an LP64 system in the C
-- locale: `strtol` and `strtoul`. Both skip white space, take a sign, read digits, and report the
-- rest of the text; a value out of range is replaced by a bound and sets `errno`.
pub mod Laws
use pidnl.Base.{
  ℕ, ◌+◌, ◌-◌, ◌*◌, ◌%◌, ◌^◌, ℤ, pos, neg, Bool, true, false, ◌||◌, ◌&&◌, not, [], ◌∷◌, Text, ltb,
  leb, ◌==◌, if◌then◌else◌,
}

abbrev pub long_max : ℕ
long_max = 9223372036854775807

abbrev pub ulong_max : ℕ
ulong_max = 18446744073709551615

abbrev pub int_max : ℕ
int_max = 2147483647

abbrev pub uint32_max : ℕ
uint32_max = 4294967295

unfoldable pub is_space : ℕ → Bool
is_space c = c == b' ' || (leb 9 c && leb c 13)

unfoldable pub is_digit : ℕ → Bool
is_digit c = leb b'0' c && leb c b'9'

unfoldable pub skip_space : Text → Text
unfolding is_space
skip_space [] = []
skip_space (c ∷ s) = let rest = skip_space s in if is_space c then rest else c ∷ s

-- The digits at the head of a text.
pub record Scan : Type 0 where
  pub any : Bool
  pub value : ℕ
  pub rest : Text

-- `n` is what was read before, and `any` whether anything was.
unfoldable pub scan_digits : Bool → ℕ → Text → Scan
unfolding is_digit
scan_digits any n [] = record { any = any; value = n; rest = [] }
scan_digits any n (c ∷ s) =
    let more = scan_digits true (n * 10 + (c - b'0')) s in
    if is_digit c then more else record { any = any; value = n; rest = c ∷ s }

-- The sign, true for minus, and the scan behind it.
unfoldable pub scan_signed : Text → Bool × Scan
unfolding scan_digits
scan_signed [] = (false, scan_digits false 0 [])
scan_signed (c ∷ s) =
    if c == b'-'
    then (true, scan_digits false 0 s)
    else if c == b'+'
    then (false, scan_digits false 0 s)
    else (false, scan_digits false 0 (c ∷ s))

-- What a parser returns: its value, `*endptr`, whether `endptr` moved, and `errno != 0`.
pub record Parsed {ℓ} (A : Type ℓ) : Type ℓ where
  pub value : A
  pub rest : Text
  pub moved : Bool
  pub range_error : Bool

-- The nearest `long` to a number with its sign.
abbrev clamp_long : Bool → ℕ → ℤ
clamp_long false n = if ltb long_max n then pos long_max else pos n
clamp_long true n = if ltb (long_max + 1) n then neg (long_max + 1) else neg n

abbrev long_overflow : Bool → ℕ → Bool
long_overflow false n = ltb long_max n
long_overflow true n = ltb (long_max + 1) n

unfoldable pub strtol : Text → Parsed ℤ
unfolding skip_space scan_signed
strtol text =
    let (minus, s) = scan_signed (skip_space text) in
    if s.any
    then record {
      value = clamp_long minus s.value;
      rest = s.rest;
      moved = true;
      range_error = long_overflow minus s.value;
    }
    else record { value = pos 0; rest = text; moved = false; range_error = false }

-- A minus sign negates the result as an `unsigned long`.
unfoldable pub strtoul : Text → Parsed ℕ
unfolding skip_space scan_signed
strtoul text =
    let (minus, s) = scan_signed (skip_space text) in
    if not s.any
    then record { value = 0; rest = text; moved = false; range_error = false }
    else if ltb ulong_max s.value
    then record { value = ulong_max; rest = s.rest; moved = true; range_error = true }
    else record {
      value = if minus then (2 ^ 64 - s.value) % 2 ^ 64 else s.value;
      rest = s.rest;
      moved = true;
      range_error = false;
    }
