-- ===== src/Byter/Struct.antt =====
-- ReadToStruct (read.go) and WriteFromStruct (write.go) of pkg/messagix/byter. reflect's view of a
-- struct is a list of fields with their tags, each with its value. encoding/json enters as the
-- parameter `accepts`: whether json.Unmarshal takes these bytes for the type of the field, whose
-- value is then kept as these bytes.
pub mod RoundTrip
use meta_matrix_bridge.Prelude.{
  ℕ, ◌%◌, List, [], ◌∷◌, ◌++◌, Bool, true, false, not, ltb, ◌==◌, if◌then◌else◌, length, map,
}
use meta_matrix_bridge.Prelude.Outcome.{Outcome, ok, err, panic, ◌>>=◌, or_hang}
use meta_matrix_bridge.Byter.{
  ByterError, bad_json, Kind, EndianTag, LengthType, uint8, uint16, uint32, uint64,
}
use meta_matrix_bridge.Byter.Vlq.{encode_vlq, decode_vlq}
use meta_matrix_bridge.Byter.Integer.{read_integer, write_integer, read_string, write_string}

pub data UintKind : Type 0 where
  u8_kind u16_kind u32_kind u64_kind : UintKind

abbrev pub to_kind : UintKind → Kind
to_kind u8_kind = uint8
to_kind u16_kind = uint16
to_kind u32_kind = uint32
to_kind u64_kind = uint64

-- `field.Type().Size()`
abbrev pub type_size : UintKind → ℕ
type_size u8_kind = 1
type_size u16_kind = 2
type_size u32_kind = 4
type_size u64_kind = 8

-- The kinds that the two switches tell apart.
pub data FieldKind : Type 0 where
  bool_field : FieldKind
  uint_field : UintKind → FieldKind
  string_field interface_field struct_field other_field : FieldKind

pub data Value : Type 0 where
  boolean : Bool → Value
  unsigned : ℕ → Value
  text : List ℕ → Value
  json : List ℕ → Value
  untouched : Value

pub record Field : Type 0 where
  pub kind : FieldKind
  pub can_set : Bool
  pub is_enum : Bool
  pub vlq : Bool
  pub skip : Bool
  pub json_string : Bool
  pub endian : EndianTag
  pub length_type : LengthType

abbrev pub Slot : Type 0
Slot = Field × Value

-- `boolByte[0] != 0` after Next(1), which panics on an empty buffer.
read_bool : List ℕ → Outcome ByterError (Value × List ℕ)
read_bool [] = panic
read_bool (b ∷ bs) = ok (boolean (not (b == 0)), bs)

-- A number of variable length is kept as it is read: the fields that have one are uint32, which hold every
-- such number; SetUint into a narrower field is not modelled.
read_unsigned : Field → UintKind → List ℕ → Outcome ByterError (Value × List ℕ)
read_unsigned f k buff =
    (if f.vlq then decode_vlq buff else read_integer (to_kind k) (type_size k) f.endian buff)
    >>= λ p. ok (unsigned p.0, p.1)

module _ (accepts : List ℕ → Bool) where
  read_json : Bool → Value → List ℕ → Outcome ByterError (Value × List ℕ)
  read_json false old buff = ok (old, buff)
  read_json true old buff = if accepts buff then ok (json buff, []) else err bad_json

  -- One field of a buffer that is not empty. An unsupported kind logs what is left of a short
  -- buffer by Next, which takes it out of the buffer.
  unfoldable pub read_field :
      FieldKind → Field → Value → List ℕ → Outcome ByterError (Value × List ℕ)
  unfolding read_bool read_unsigned read_json
  read_field bool_field f old buff = read_bool buff
  read_field (uint_field k) f old buff = read_unsigned f k buff
  read_field string_field f old buff =
      read_string f.length_type f.endian buff >>= λ p. ok (text p.0, p.1)
  read_field interface_field f old buff = ok (old, buff)
  read_field struct_field f old buff = read_json f.json_string old buff
  read_field other_field f old buff = ok (old, if ltb (length buff) 1024 then [] else buff)

  -- The values after the call, and the bytes that the buffer still holds. The loop ends early on
  -- an empty buffer and passes over fields that cannot be set.
  unfoldable pub read_to_struct : List Slot → List ℕ → Outcome ByterError (List Value × List ℕ)
  unfolding read_field
  read_to_struct [] buff = ok ([], buff)
  read_to_struct ((f, old) ∷ slots) buff =
      let here = if f.can_set then read_field f.kind f old buff else ok (old, buff) in
      let go = here >>= λ p. read_to_struct slots p.1 >>= λ q. ok (p.0 ∷ q.0, q.1) in
      if length buff == 0 then ok (old ∷ map (λ s. s.1) slots, buff) else go

write_unsigned : Field → UintKind → ℕ → Outcome ByterError (List ℕ)
write_unsigned f k n =
    if f.is_enum
    then ok ((n % 256) ∷ [])
    else (if f.vlq then or_hang (encode_vlq n) else write_integer n (to_kind k) f.endian)

-- The bytes that one field adds to the buffer; an unsupported kind is logged and adds none.
write_field : FieldKind → Field → Value → Outcome ByterError (List ℕ)
unfolding write_unsigned
write_field (uint_field k) f (unsigned n) = write_unsigned f k n
write_field string_field f (text s) = ok (write_string s f.length_type f.endian)
write_field _ f v = ok []

unfoldable pub write_from_struct : List Slot → Outcome ByterError (List ℕ)
unfolding write_field
write_from_struct [] = ok []
write_from_struct ((f, v) ∷ slots) = (if f.skip then ok [] else write_field f.kind f v) >>= λ bs.
    write_from_struct slots >>= λ more. ok (bs ++ more)
