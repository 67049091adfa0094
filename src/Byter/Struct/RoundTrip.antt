-- ===== src/Byter/Struct/RoundTrip.antt =====
-- pkg/messagix/byter: ReadToStruct on the bytes of WriteFromStruct.
use meta_matrix_bridge.Prelude.{
  ℕ, ◌^◌, ◌<◌, ◌≡◌, refl, List, [], ◌∷◌, ◌++◌, Bool, true, false, some, arith, length, map,
  append_assoc, length-append, ◌%◌,
}
use meta_matrix_bridge.Prelude.Outcome.{ok}
use meta_matrix_bridge.Byter.{
  EndianTag, unset_endian, big, little, other_endian, uint8, kind_width, string_length_tags,
  string_length_sizes,
}
use meta_matrix_bridge.Byter.Vlq.RoundTrip.{decode-encode_vlq}
use meta_matrix_bridge.Byter.Integer.RoundTrip.{KnownEndian, read-write_integer, read-write_string}
use meta_matrix_bridge.Word.{put_be, put_le}
use meta_matrix_bridge.Byter.Integer.{write_integer, write_string}
use meta_matrix_bridge.Byter.Struct.{
  uint_field, string_field, Field, Value, unsigned, text, Slot, UintKind, u8_kind, u16_kind,
  u32_kind, u64_kind, to_kind, type_size, read_field, read_to_struct, write_field,
  write_from_struct, read_unsigned, write_unsigned,
}

-- A field that is written and read, with a value that its form on the wire can hold: a
-- variable-length number, a number of fixed width, an enum (one byte), a string with its length.
pub data IsWire (f : Field) : Value → Type 0 where
  vlq_wire :
      (k : UintKind) (n : ℕ)
      → f.kind ≡ uint_field k
      → f.can_set ≡ true
      → f.skip ≡ false
      → f.is_enum ≡ false
      → f.vlq ≡ true
      → n < 2 ^ 28
      → IsWire f (unsigned n)
  fixed_wire :
      (k : UintKind) (n : ℕ)
      → f.kind ≡ uint_field k
      → f.can_set ≡ true
      → f.skip ≡ false
      → f.is_enum ≡ false
      → f.vlq ≡ false
      → KnownEndian f.endian
      → n < 256 ^ type_size k
      → IsWire f (unsigned n)
  enum_wire :
      (n : ℕ)
      → f.kind ≡ uint_field u8_kind
      → f.can_set ≡ true
      → f.skip ≡ false
      → f.is_enum ≡ true
      → f.vlq ≡ false
      → KnownEndian f.endian
      → n < 256
      → IsWire f (unsigned n)
  text_wire :
      (s : List ℕ) (w : ℕ)
      → f.kind ≡ string_field
      → f.can_set ≡ true
      → f.skip ≡ false
      → string_length_sizes f.length_type ≡ some w
      → kind_width (string_length_tags f.length_type) ≡ some w
      → KnownEndian f.endian
      → 0 < w
      → length s < 256 ^ w
      → IsWire f (text s)

abbrev pub AllWire : List Slot → Type 0
AllWire [] = Unit {0}
AllWire (s ∷ slots) = IsWire s.0 s.1 × AllWire slots

-- The same struct before it is read: its fields hold other values.
abbrev pub with_values : (Value → Value) → List Slot → List Slot
with_values old = map (λ s. (s.0, old s.1))

sizes : (k : UintKind) → kind_width (to_kind k) ≡ some (type_size k)
sizes u8_kind = refl
sizes u16_kind = refl
sizes u32_kind = refl
sizes u64_kind = refl

sizes_pos : (k : UintKind) → 0 < type_size k
sizes_pos u8_kind = omega arith
sizes_pos u16_kind = omega arith
sizes_pos u32_kind = omega arith
sizes_pos u64_kind = omega arith

write_enum : (n : ℕ) (e : EndianTag) → KnownEndian e → write_integer n uint8 e ≡ ok ((n % 256) ∷ [])
unfolding write_integer put_be put_le
write_enum n unset_endian k = refl
write_enum n big k = refl
write_enum n little k = refl
write_enum n other_endian k = elim k [ ]

write_step :
    (f : Field) (v : Value) (slots : List Slot) (bs more : List ℕ)
    → f.skip ≡ false
    → write_field f.kind f v ≡ ok bs
    → write_from_struct slots ≡ ok more
    → write_from_struct ((f, v) ∷ slots) ≡ ok (bs ++ more)
unfolding write_from_struct
write_step f v slots bs more skip here later = rw (here, later) (rw skip)

module _ (accepts : List ℕ → Bool) where
  -- One field of a buffer that is not empty.
  pub read_step :
      (f : Field) (old v : Value) (slots : List Slot) (buff after rest : List ℕ) (vs : List Value)
      → 0 < length buff
      → f.can_set ≡ true
      → read_field accepts f.kind f old buff ≡ ok (v, after)
      → read_to_struct accepts slots after ≡ ok (vs, rest)
      → read_to_struct accepts ((f, old) ∷ slots) buff ≡ ok (v ∷ vs, rest)
  unfolding read_to_struct
  read_step f old v slots [] after rest vs pos set here later = absurd (omega arith)
  read_step f old v slots (b ∷ buff) after rest vs pos set here later =
      rw here (rw set (rw later (ground arith)))

  -- What a field of the wire writes, and what reading it back gives.
  abbrev FieldTrip : Field → Value → Value → List ℕ → Type 0
  FieldTrip f v old rest =
      (bs : List ℕ) × (write_field f.kind f v ≡ ok bs)
      × (0 < length bs)
      × (read_field accepts f.kind f old (bs ++ rest) ≡ ok (v, rest))

  field_trip :
      {f : Field} {v : Value} → IsWire f v → (old : Value) (rest : List ℕ) → FieldTrip f v old rest
  unfolding write_field read_field write_unsigned read_unsigned
  field_trip (vlq_wire k n kind set skip enum vlq fits) old rest =
      let (bs, wrote, pos, _, got) = decode-encode_vlq n rest fits in
      (bs, rw (kind, enum, vlq, wrote), pos, rw (kind, vlq, got))
  field_trip (fixed_wire k n kind set skip enum vlq known fits) old rest =
      let (bs, wrote, len, got) =
        read-write_integer (to_kind k) (type_size k) (sizes k) n fits rest _ known in
      (bs, rw (kind, enum, vlq, wrote), omega (arith, sizes_pos k), rw (kind, vlq, got))
  field_trip (enum_wire n kind set skip enum vlq known fits) old rest =
      let (bs, wrote, len, got) = read-write_integer uint8 1 refl n (omega arith) rest _ known in
      (bs, rw (kind, enum) (rw (write_enum n _ known) at wrote), omega arith, rw (kind, vlq, got))
  field_trip {f} (text_wire s w kind set skip sized width known pos fits) old rest =
      let (len, got) = read-write_string f.length_type f.endian w s rest sized width known fits in
      (write_string s f.length_type f.endian, rw kind, omega arith, rw (kind, got))

  IsWire-can_set : {f : Field} {v : Value} → IsWire f v → (f.can_set ≡ true) × (f.skip ≡ false)
  IsWire-can_set (vlq_wire k n kind set skip enum vlq fits) = (set, skip)
  IsWire-can_set (fixed_wire k n kind set skip enum vlq known fits) = (set, skip)
  IsWire-can_set (enum_wire n kind set skip enum vlq known fits) = (set, skip)
  IsWire-can_set (text_wire s w kind set skip sized width known pos fits) = (set, skip)

  -- Of every struct whose fields are all written and read, and whose values fit the wire,
  -- ReadToStruct gives back the values that WriteFromStruct was given, whatever the struct held
  -- before, and leaves the bytes that follow.
  pub read-write_struct :
      (slots : List Slot) (old : Value → Value) (rest : List ℕ)
      → AllWire slots
      → (bs : List ℕ) × (write_from_struct slots ≡ ok bs)
        × (read_to_struct accepts (with_values old slots) (bs ++ rest)
            ≡ ok (map (λ s. s.1) slots, rest))
  read-write_struct [] old rest h =
      ([], unfold write_from_struct in refl, unfold read_to_struct in refl)
  read-write_struct ((f, v) ∷ slots) old rest h =
      let (more, wrote, got) = read-write_struct slots old rest h.1 in
      let (bs, wrote_here, pos, got_here) = field_trip h.0 (old v) (more ++ rest) in
      let (set, skip) = IsWire-can_set h.0 in
      (
        bs ++ more,
        write_step f v slots bs more skip wrote_here wrote,
        rw (append_assoc bs more rest) (
            read_step f (old v) v (with_values old slots) (bs ++ (more ++ rest)) (more ++ rest) rest
              _ (omega (arith, length-append bs (more ++ rest), pos)) set got_here got),
      )
