-- ===== src/Strconv.antt =====
-- Decimal numbers as strconv.FormatInt and strconv.ParseInt (base 10, 64 bits) write and read them.
pub mod RoundTrip
use meta_matrix_bridge.Prelude.{
  ℕ, zero, suc, ◌+◌, ◌-◌, ◌*◌, ◌/◌, ◌%◌, List, [], ◌∷◌, ◌++◌, Bool, true, false, not, ◌&&◌, leb,
  ltb, if◌then◌else◌, ◌==◌,
}

-- `negsuc n` is -(n + 1).
pub data ℤ : Type 0 where
  pos : ℕ → ℤ
  negsuc : ℕ → ℤ

-- The two's complement pattern of an int64, and the int64 of a pattern.
abbrev pub to_u64 : ℤ → ℕ
to_u64 (pos n) = n
to_u64 (negsuc n) = 18446744073709551615 - n

abbrev pub from_u64 : ℕ → ℤ
from_u64 w = if ltb w 9223372036854775808 then pos w else negsuc (18446744073709551615 - w)

-- Twenty digits are enough for every 64-bit number.
unfoldable pub format_digits : ℕ → ℕ → List ℕ
format_digits zero n = []
format_digits (suc fuel) n =
    let front = format_digits fuel (n / 10) in
    if ltb n 10 then (48 + n) ∷ [] else front ++ ((48 + n % 10) ∷ [])

unfoldable pub format_uint : ℕ → List ℕ
unfolding format_digits
format_uint n = format_digits 20 n

unfoldable pub format_int : ℤ → List ℕ
unfolding format_uint
format_int (pos n) = format_uint n
format_int (negsuc n) = b'-' ∷ format_uint (suc n)

-- The digits of an unsigned number: its value, a byte that is no digit, or a value past 2 ^ 64,
-- which ends the scan at once.
pub data Scan : Type 0 where
  value : ℕ → Scan
  syntax range : Scan

abbrev pub is_digit : ℕ → Bool
is_digit c = leb 48 c && leb c 57

unfoldable pub scan_digits : ℕ → List ℕ → Scan
scan_digits acc [] = value acc
scan_digits acc (c ∷ cs) =
    let n = acc * 10 + (c - 48) in
    let more = scan_digits n cs in
    if not (is_digit c) then syntax else (if ltb n 18446744073709551616 then more else range)

abbrev scan_all : List ℕ → Scan
scan_all [] = syntax
scan_all (c ∷ cs) = scan_digits 0 (c ∷ cs)

-- A value out of range is cut to the nearest int64. The Boolean says that there was no error.
abbrev pub signed : Bool → Scan → ℤ × Bool
signed negative syntax = (pos 0, false)
signed false range = (pos 9223372036854775807, false)
signed true range = (negsuc 9223372036854775807, false)
signed false (value n) =
    if ltb n 9223372036854775808 then (pos n, true) else (pos 9223372036854775807, false)
signed true (value zero) = (pos 0, true)
signed true (value (suc n)) =
    if ltb n 9223372036854775808 then (negsuc n, true) else (negsuc 9223372036854775807, false)

unfoldable pub parse_int : List ℕ → ℤ × Bool
unfolding scan_digits
parse_int [] = (pos 0, false)
parse_int (c ∷ cs) =
    if c == b'-'
    then signed true (scan_all cs)
    else (if c == b'+' then signed false (scan_all cs) else signed false (scan_all (c ∷ cs)))
