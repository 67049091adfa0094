-- ===== src/Strconv/RoundTrip.antt =====
-- ParseInt on what FormatInt wrote.
use meta_matrix_bridge.Prelude.{
  ℕ, zero, suc, ◌+◌, ◌-◌, ◌*◌, ◌/◌, ◌%◌, ◌^◌, ◌≤◌, ◌<◌, ◌≡◌, ap, ◌∙◌, List, [], ◌∷◌, ◌++◌, true,
  false, ltb, arith, dec_lt,
}
use meta_matrix_bridge.Strconv.{
  ℤ, pos, negsuc, to_u64, from_u64, format_digits, format_uint, format_int, value, scan_digits,
  parse_int,
}

-- The numbers that an int64 can hold.
abbrev pub IsInt64 : ℤ → Type 0
IsInt64 (pos n) = n < 9223372036854775808
IsInt64 (negsuc n) = n < 9223372036854775808

pub from_u64-to_u64 : (i : ℤ) → IsInt64 i → from_u64 (to_u64 i) ≡ i
from_u64-to_u64 (pos n) h = ground arith
from_u64-to_u64 (negsuc n) h = ground arith

scan_snoc :
    (acc v c : ℕ) (cs : List ℕ)
    → scan_digits acc cs ≡ value v
    → 48 ≤ c
    → c ≤ 57
    → v * 10 + (c - 48) < 18446744073709551616
    → scan_digits acc (cs ++ (c ∷ [])) ≡ value (v * 10 + (c - 48))
unfolding scan_digits
scan_snoc acc v c [] e lo hi fits = ground arith
scan_snoc acc v c (d ∷ cs) e lo hi fits = ground (arith, scan_snoc (acc * 10 + (d - 48)) v c cs)

fuel_pos : (fuel n : ℕ) → n < 10 ^ suc fuel → ¬ (n < 10) → 0 < fuel
fuel_pos zero n h large = absurd (large (omega arith))
fuel_pos (suc fuel) n h large = omega arith

-- The value of the digits, for a number that the fuel and 64 bits can hold.
scan_format :
    (fuel n : ℕ)
    → n < 10 ^ fuel
    → n < 18446744073709551616
    → 0 < fuel
    → scan_digits 0 (format_digits fuel n) ≡ value n
unfolding format_digits scan_digits
scan_format zero n h u p = absurd (omega arith)
scan_format (suc fuel) n h u p = elim (dec_lt n 10) [
  | yes small ↦ ground arith
  | no large ↦
      let e : ltb n 10 ≡ false = ground arith in
      rw e (
        scan_snoc 0 (n / 10) (48 + n % 10) (format_digits fuel (n / 10))
          (scan_format fuel (n / 10) (omega arith) (omega arith) (fuel_pos fuel n h large))
          (omega arith) (omega arith) (omega arith)
        ∙ ap value (omega arith))
]

scan_format_uint : (n : ℕ) → n < 18446744073709551616 → scan_digits 0 (format_uint n) ≡ value n
unfolding format_uint
scan_format_uint n h = scan_format 20 n (omega arith) h (omega arith)

-- The text of a number is not empty, and starts with a digit.
abbrev StartsWithDigit : List ℕ → Type 0
StartsWithDigit [] = ⊥
StartsWithDigit (c ∷ cs) = (48 ≤ c) × (c ≤ 57)

StartsWithDigit-append : (xs ys : List ℕ) → StartsWithDigit xs → StartsWithDigit (xs ++ ys)
StartsWithDigit-append [] ys h = elim h [ ]
StartsWithDigit-append (x ∷ xs) ys h = h

format_digits_start :
    (fuel n : ℕ) → n < 10 ^ fuel → 0 < fuel → StartsWithDigit (format_digits fuel n)
unfolding format_digits
format_digits_start zero n h p = absurd (omega arith)
format_digits_start (suc fuel) n h p = elim (dec_lt n 10) [
  | yes small ↦ let e : ltb n 10 ≡ true = ground arith in rw e (omega arith)
  | no large ↦
      let e : ltb n 10 ≡ false = ground arith in
      rw e (
        StartsWithDigit-append (format_digits fuel (n / 10)) _
          (format_digits_start fuel (n / 10) (omega arith) (fuel_pos fuel n h large)))
]

parse_digits :
    (s : List ℕ) (n : ℕ)
    → StartsWithDigit s
    → scan_digits 0 s ≡ value n
    → n < 9223372036854775808
    → parse_int s ≡ (pos n, true)
unfolding parse_int
parse_digits [] n h e fits = elim h [ ]
parse_digits (c ∷ cs) n h e fits = rw e (ground arith)

parse_negative :
    (s : List ℕ) (n : ℕ)
    → StartsWithDigit s
    → scan_digits 0 s ≡ value (suc n)
    → n < 9223372036854775808
    → parse_int (b'-' ∷ s) ≡ (negsuc n, true)
unfolding parse_int
parse_negative [] n h e fits = elim h [ ]
parse_negative (c ∷ cs) n h e fits = rw e (ground arith)

-- strconv.ParseInt reads every int64 back from what strconv.FormatInt wrote.
pub parse_int-format_int : (i : ℤ) → IsInt64 i → parse_int (format_int i) ≡ (i, true)
unfolding format_int
parse_int-format_int (pos n) h =
    parse_digits (format_uint n) n
      (unfold format_uint in format_digits_start 20 n (omega arith) (omega arith))
      (scan_format_uint n (omega arith)) h
parse_int-format_int (negsuc n) h =
    parse_negative (format_uint (suc n)) n
      (unfold format_uint in format_digits_start 20 (suc n) (omega arith) (omega arith))
      (scan_format_uint (suc n) (omega arith)) h
