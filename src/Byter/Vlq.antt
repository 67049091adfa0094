-- ===== src/Byter/Vlq.antt =====
-- Variable-length quantities of pkg/messagix/byter: EncodeVLQ in write.go, DecodeVLQ in read.go.
-- Go's `int` has 64 bits; it is read as its two's complement pattern, below 2 ^ 64.
pub mod RoundTrip
pub mod Bounds
use meta_matrix_bridge.Prelude.{
  ℕ, zero, suc, ◌+◌, ◌*◌, ◌/◌, ◌%◌, List, [], ◌∷◌, Bool, ◌&&◌, Option, none, some, ltb, ◌==◌,
  if◌then◌else◌, bit_and, bit_or,
}
use meta_matrix_bridge.Prelude.Outcome.{Outcome, ok, err}
use meta_matrix_bridge.Byter.{ByterError, eof, malformed_vlq}
use mathlib.Core.Option

abbrev pub sign_bit : ℕ
sign_bit = 9223372036854775808

-- `value >> 7` on an int: the sign is kept.
abbrev pub shift_seven : ℕ → ℕ
shift_seven v = if ltb v sign_bit then v / 128 else v / 128 + 18302628885633695744

-- `value > 0`
abbrev pub is_positive : ℕ → Bool
is_positive v = ltb 0 v && ltb v sign_bit

-- The byte that one round writes: `next` is what the shift has left.
abbrev pub vlq_byte : ℕ → ℕ → ℕ
vlq_byte v next =
    let group = bit_and (v % 256) 0x7f in if is_positive next then bit_or group 0x80 else group

-- `none` means that the fuel ran out: the loop is not left.
unfoldable pub encode_vlq_loop : ℕ → ℕ → Option (List ℕ)
encode_vlq_loop zero v = none
encode_vlq_loop (suc fuel) v =
    let next = shift_seven v in
    let more = Option.map (λ bs. vlq_byte v next ∷ bs) (encode_vlq_loop fuel next) in
    if next == 0 then some (vlq_byte v next ∷ []) else more

-- Ten rounds are enough for every int that is not negative.
abbrev pub vlq_fuel : ℕ
vlq_fuel = 10

unfoldable pub encode_vlq : ℕ → Option (List ℕ)
unfolding encode_vlq_loop
encode_vlq v = encode_vlq_loop vlq_fuel v

-- The value read so far, the multiplier and the bytes left in the buffer.
unfoldable pub decode_vlq_loop : ℕ → ℕ → List ℕ → Outcome ByterError (ℕ × List ℕ)
decode_vlq_loop value multiplier [] = err eof
decode_vlq_loop value multiplier (b ∷ bs) =
    let value' = value + bit_and b 0x7f * multiplier in
    let more = decode_vlq_loop value' (multiplier * 128) bs in
    if ltb 2097152 multiplier
    then err malformed_vlq
    else (if bit_and b 0x80 == 0 then ok (value', bs) else more)

unfoldable pub decode_vlq : List ℕ → Outcome ByterError (ℕ × List ℕ)
unfolding decode_vlq_loop
decode_vlq bs = decode_vlq_loop 0 1 bs
