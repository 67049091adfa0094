-- ===== src/Byter.antt =====
-- pkg/messagix/byter: the reflective reader and writer of MQTT structs.
-- The bytes.Buffer is the list of bytes that it still holds; a byte is a number below 256.
-- A struct tag is an enumeration of the keys that the code looks up, and one more for any other.
pub mod Vlq
pub mod Integer
pub mod Struct
use meta_matrix_bridge.Prelude.{ℕ, Option, none, some}

-- The errors that the package returns. `eof` is io.EOF of the buffer.
pub data ByterError : Type 0 where
  eof unsupported_kind invalid_length_type malformed_vlq bad_json : ByterError

-- The part of reflect.Kind that the package names.
pub data Kind : Type 0 where
  invalid uint8 uint16 uint32 uint64 int16 int32 int64 : Kind

-- The `endian` tag.
pub data EndianTag : Type 0 where
  unset_endian big little other_endian : EndianTag

-- The `lengthType` tag.
pub data LengthType : Type 0 where
  no_length uint8_length uint16_length uint32_length uint64_length int8_length byte_length :
      LengthType
  int16_length int32_length int64_length other_length : LengthType

-- A key that the map lacks gives the zero value, reflect.Invalid.
abbrev pub string_length_tags : LengthType → Kind
string_length_tags uint8_length = uint8
string_length_tags uint16_length = uint16
string_length_tags uint32_length = uint32
string_length_tags uint64_length = uint64
string_length_tags int8_length = uint8
string_length_tags byte_length = uint8
string_length_tags int16_length = int16
string_length_tags int32_length = int32
string_length_tags int64_length = int64
string_length_tags _ = invalid

abbrev pub string_length_sizes : LengthType → Option ℕ
string_length_sizes uint8_length = some 1
string_length_sizes uint16_length = some 2
string_length_sizes uint32_length = some 4
string_length_sizes uint64_length = some 8
string_length_sizes int8_length = some 1
string_length_sizes byte_length = some 1
string_length_sizes int16_length = some 2
string_length_sizes int32_length = some 4
string_length_sizes int64_length = some 8
string_length_sizes _ = none

-- `if endian == "" { endian = "big" }`
abbrev pub default_big : EndianTag → EndianTag
default_big unset_endian = big
default_big e = e

-- The width in bytes of the operations that `endianOperations` has for a kind.
abbrev pub kind_width : Kind → Option ℕ
kind_width uint8 = some 1
kind_width uint16 = some 2
kind_width uint32 = some 4
kind_width uint64 = some 8
kind_width _ = none
