-- ===== src/Byter/Vlq/RoundTrip.antt =====
-- Which ints EncodeVLQ writes, and what DecodeVLQ makes of them.
use meta_matrix_bridge.Prelude.{
  ℕ, zero, suc, ◌+◌, ◌*◌, ◌/◌, ◌%◌, ◌^◌, ◌≤◌, ◌<◌, ◌≡◌, refl, ap, ◌∙◌, List, [], ◌∷◌, ◌++◌, none,
  some, arith, length, bit_and, if◌then◌else◌, ltb,
}
use meta_matrix_bridge.Prelude.Bits.{low_seven, top_bit, set_top}
use meta_matrix_bridge.Prelude.Outcome.{ok, err}
use meta_matrix_bridge.Byter.{malformed_vlq}
use meta_matrix_bridge.Byter.Vlq.{
  sign_bit, shift_seven, vlq_byte, encode_vlq_loop, encode_vlq, decode_vlq_loop, decode_vlq,
}
use native.Mathlib.Nat.{div-add-mod, mul_assoc, pow-suc}
use native.Mathlib.Decide.{dec_lt}

-- Groups of seven bits, lowest first, in plain arithmetic: `k + 1` of them at most.
unfoldable pub groups : ℕ → ℕ → List ℕ
groups zero v = v ∷ []
groups (suc k) v =
    let rest = groups k (v / 128) in if ltb v 128 then v ∷ [] else (v % 128 + 128) ∷ rest

length-groups : (k v : ℕ) → length (groups k v) ≤ k + 1
unfolding groups
length-groups zero v = omega arith
length-groups (suc k) v = ground (arith, length-groups k (v / 128))

groups-pos : (k v : ℕ) → 0 < length (groups k v)
unfolding groups
groups-pos zero v = omega arith
groups-pos (suc k) v = ground arith

low_group : (v : ℕ) → bit_and (v % 256) 0x7f ≡ v % 128
low_group v = low_seven (v % 256) (omega arith) ∙ omega arith

inner_byte : (v : ℕ) → v < sign_bit → 128 ≤ v → vlq_byte v (shift_seven v) ≡ v % 128 + 128
inner_byte v h k = ground (arith, low_group v, set_top (v % 128))

last_byte : (v : ℕ) → v < 128 → vlq_byte v (shift_seven v) ≡ v
last_byte v h = ground (arith, low_group v)

encode_loop_groups :
    (k v fuel : ℕ)
    → v < sign_bit
    → v < 128 ^ suc k
    → k < fuel
    → encode_vlq_loop fuel v ≡ some (groups k v)
unfolding encode_vlq_loop groups
encode_loop_groups k v zero h b f = absurd (omega arith)
encode_loop_groups zero v (suc fuel) h b f = ground (arith, last_byte v)
encode_loop_groups (suc k) v (suc fuel) h b f = ground (
  arith,
  last_byte v,
  inner_byte v,
  encode_loop_groups k (v / 128) fuel (omega arith) (omega arith),
)

pub encode_vlq-groups : (v : ℕ) → v < sign_bit → encode_vlq v ≡ some (groups 9 v)
unfolding encode_vlq
encode_vlq-groups v h = encode_loop_groups 9 v 10 h (omega arith) (omega arith)

-- On a negative int the loop of EncodeVLQ is never left.
pub encode_vlq-negative :
    (fuel v : ℕ) → sign_bit ≤ v → v < 18446744073709551616 → encode_vlq_loop fuel v ≡ none
unfolding encode_vlq_loop
encode_vlq-negative zero v h u = refl
encode_vlq-negative (suc fuel) v h u = ground (arith, encode_vlq-negative fuel (shift_seven v))

groups_step :
    (k v value multiplier : ℕ) (rest : List ℕ)
    → 128 ≤ v
    → multiplier ≤ 2097152
    → decode_vlq_loop value multiplier (groups (suc k) v ++ rest)
      ≡ decode_vlq_loop
          (value + v % 128 * multiplier)
          (multiplier * 128)
          (groups k (v / 128) ++ rest)
unfolding decode_vlq_loop groups
groups_step k v value multiplier rest h m =
    ground (arith, low_seven (v % 128 + 128), top_bit (v % 128 + 128))

groups_last :
    (k v value multiplier : ℕ) (rest : List ℕ)
    → v < 128
    → multiplier ≤ 2097152
    → decode_vlq_loop value multiplier (groups k v ++ rest) ≡ ok (value + v * multiplier, rest)
unfolding decode_vlq_loop groups
groups_last zero v value multiplier rest h m = ground (arith, low_seven v, top_bit v)
groups_last (suc k) v value multiplier rest h m = ground (arith, low_seven v, top_bit v)

groups_too_far :
    (k v value multiplier : ℕ) (rest : List ℕ)
    → 2097152 < multiplier
    → decode_vlq_loop value multiplier (groups k v ++ rest) ≡ err malformed_vlq
unfolding decode_vlq_loop groups
groups_too_far zero v value multiplier rest m = ground arith
groups_too_far (suc k) v value multiplier rest m = ground arith

split_group : (v m : ℕ) → v % 128 * m + v / 128 * (m * 128) ≡ v * m
split_group v m = omega (arith, ap (λ (t : ℕ). t * m) (div-add-mod v 128))

next_multiplier : (m k : ℕ) → m * 128 * 128 ^ k ≡ m * 128 ^ suc k
next_multiplier m k = mul_assoc m 128 (128 ^ k) ∙ ap (λ t. m * t) (omega (arith, pow-suc 128 k))

decode_groups :
    (k v value multiplier : ℕ) (rest : List ℕ)
    → v < 128 ^ suc k
    → multiplier * 128 ^ k ≤ 2097152
    → decode_vlq_loop value multiplier (groups k v ++ rest) ≡ ok (value + v * multiplier, rest)
decode_groups zero v value multiplier rest h m =
    groups_last 0 v value multiplier rest (omega arith) (omega arith)
decode_groups (suc k) v value multiplier rest h m = elim (dec_lt v 128) [
  | yes small ↦ groups_last (suc k) v value multiplier rest small (grind arith)
  | no large ↦
      groups_step k v value multiplier rest (omega arith) (grind arith)
      ∙ decode_groups k (v / 128) (value + v % 128 * multiplier) (multiplier * 128) rest
          (omega arith) (omega (arith, next_multiplier multiplier k))
      ∙ ap (λ t. ok (t, rest)) (omega (arith, split_group v multiplier))
]

-- An int below 2 ^ 28 is written as one to four bytes, and DecodeVLQ reads it back from them and
-- leaves what follows.
pub decode-encode_vlq :
    (v : ℕ) (rest : List ℕ)
    → v < 2 ^ 28
    → (bs : List ℕ) × (encode_vlq v ≡ some bs)
      × (0 < length bs)
      × (length bs ≤ 4)
      × (decode_vlq (bs ++ rest) ≡ ok (v, rest))
unfolding encode_vlq decode_vlq
decode-encode_vlq v rest h = (
  groups 3 v,
  encode_loop_groups 3 v 10 (omega arith) (omega arith) (omega arith),
  groups-pos 3 v,
  length-groups 3 v,
  decode_groups 3 v 0 1 rest (omega arith) (omega arith) ∙ ap (λ t. ok (t, rest)) (omega arith),
)

-- From 2 ^ 28 on EncodeVLQ still writes an int, as five bytes or more, and DecodeVLQ refuses them
-- as malformed, whatever follows.
pub decode-encode_vlq_large :
    (v : ℕ) (rest : List ℕ)
    → 2 ^ 28 ≤ v
    → v < 2 ^ 63
    → (bs : List ℕ) × (encode_vlq v ≡ some bs) × (decode_vlq (bs ++ rest) ≡ err malformed_vlq)
unfolding decode_vlq
decode-encode_vlq_large v rest lo hi = (
  groups 9 v,
  encode_vlq-groups v hi,
  groups_step 8 v 0 1 rest (omega arith) (omega arith)
      ∙ groups_step 7 (v / 128) _ _ rest (omega arith) (omega arith)
      ∙ groups_step 6 (v / 128 / 128) _ _ rest (omega arith) (omega arith)
      ∙ groups_step 5 (v / 128 / 128 / 128) _ _ rest (omega arith) (omega arith)
      ∙ groups_too_far 5 _ _ _ rest (omega arith),
)
