-- ===== src/Byter/Vlq/Bounds.antt =====
-- DecodeVLQ on any input, well formed or not.
use meta_matrix_bridge.Prelude.{
  ℕ, zero, suc, ◌+◌, ◌*◌, ◌%◌, ◌^◌, ◌≤◌, ◌<◌, ◌≡◌, ap, ◌∙◌, List, [], ◌∷◌, All, arith, length,
  bit_and,
}
use meta_matrix_bridge.Prelude.Bits.{low_seven}
use meta_matrix_bridge.Prelude.Outcome.{ok}
use meta_matrix_bridge.Word.{IsByte}
use meta_matrix_bridge.Byter.Vlq.{decode_vlq_loop, decode_vlq}
use native.Mathlib.Nat.{mul_assoc, pow-suc}

group_bound : (value g m : ℕ) → value < m → g < 128 → value + g * m < m * 128
group_bound value g m h k = grind arith

pow_pos : (l : ℕ) → 0 < 128 ^ l
pow_pos zero = omega arith
pow_pos (suc l) = omega (arith, pow_pos l)

le_of_mul : (a p n : ℕ) → 0 < p → a * p ≡ n → a ≤ n
le_of_mul a p n h e = grind arith

next_limit : (m l n : ℕ) → m * 128 ^ suc l ≡ n → m * 128 * 128 ^ l ≡ n
next_limit m l n e = mul_assoc m 128 (128 ^ l) ∙ ap (λ t. m * t) (omega (arith, pow-suc 128 l)) ∙ e

-- `left` is how many bytes the multiplier still allows.
decode_loop_bounds :
    (left : ℕ) (bs : List ℕ) (value multiplier v : ℕ) (rest : List ℕ)
    → All IsByte bs
    → multiplier * 128 ^ left ≡ 2 ^ 28
    → value < multiplier
    → decode_vlq_loop value multiplier bs ≡ ok (v, rest)
    → (v < 2 ^ 28) × (length rest < length bs) × (length bs ≤ length rest + left)
unfolding decode_vlq_loop
decode_loop_bounds left [] value multiplier v rest bytes lim h e = cc
decode_loop_bounds zero (b ∷ bs) value multiplier v rest bytes lim h e = ground arith
decode_loop_bounds (suc left) (b ∷ bs) value multiplier v rest bytes lim h e = ground (
  arith,
  low_seven b bytes.0,
  group_bound value (b % 128) multiplier h (omega arith),
  le_of_mul (multiplier * 128) (128 ^ left) (2 ^ 28) (pow_pos left)
      (next_limit multiplier left (2 ^ 28) lim),
  decode_loop_bounds left bs (value + bit_and b 0x7f * multiplier) (multiplier * 128) v rest bytes.1
      (next_limit multiplier left (2 ^ 28) lim),
)

-- A number that DecodeVLQ accepts is below 2 ^ 28, and it took one to four bytes of the buffer.
pub decode_vlq_bounds :
    (bs : List ℕ) (v : ℕ) (rest : List ℕ)
    → All IsByte bs
    → decode_vlq bs ≡ ok (v, rest)
    → (v < 2 ^ 28) × (length rest < length bs) × (length bs ≤ length rest + 4)
unfolding decode_vlq
decode_vlq_bounds bs v rest bytes e =
    decode_loop_bounds 4 bs 0 1 v rest bytes (omega arith) (omega arith) e
