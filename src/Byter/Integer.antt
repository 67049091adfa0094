-- ===== src/Byter/Integer.antt =====
-- Integers and strings of pkg/messagix/byter: ReadInteger and readString of read.go, writeInteger
-- and writeString of write.go.
pub mod RoundTrip
pub mod Short
use meta_matrix_bridge.Prelude.{
  ℕ, ◌-◌, ◌<◌, List, [], ◌∷◌, ◌++◌, Option, none, some, ltb, ◌==◌, if◌then◌else◌, length, take,
  drop, replicate,
}
use meta_matrix_bridge.Prelude.Outcome.{Outcome, ok, err, panic, ◌>>=◌, or_err}
use meta_matrix_bridge.Word.{put_be, get_be, put_le, get_le}
use meta_matrix_bridge.Byter.{
  ByterError, eof, unsupported_kind, invalid_length_type, Kind, EndianTag, big, little, LengthType,
  no_length, string_length_tags, string_length_sizes, default_big, kind_width,
}

-- bytes.Buffer.Read into a fresh slice of `n` zeros: what the buffer cannot fill stays zero, and
-- only an empty buffer is an error.
unfoldable pub buffer_read : ℕ → List ℕ → Outcome ByterError (List ℕ × List ℕ)
buffer_read n [] = if n == 0 then ok ([], []) else err eof
buffer_read n (b ∷ bs) = ok (take n (b ∷ bs) ++ replicate (n - length (b ∷ bs)) 0, drop n (b ∷ bs))

-- `ops.Read(buffer)` for the operations of a width; a shorter slice is an index out of range.
read_op : (List ℕ → ℕ) → ℕ → List ℕ → Outcome ByterError ℕ
read_op get w buffer = if ltb (length buffer) w then panic else ok (get (take w buffer))

-- The two lookups in `endianOperations`.
read_ops : EndianTag → Option ℕ → List ℕ → Outcome ByterError ℕ
unfolding read_op
read_ops big (some w) buffer = read_op get_be w buffer
read_ops little (some w) buffer = read_op get_le w buffer
read_ops _ _ buffer = err unsupported_kind

unfoldable pub read_integer : Kind → ℕ → EndianTag → List ℕ → Outcome ByterError (ℕ × List ℕ)
unfolding read_ops
read_integer kind size endian buff = do
  (buffer, rest) ← buffer_read size buff
  value ← read_ops (default_big endian) (kind_width kind) buffer
  ok (value, rest)

write_ops : EndianTag → Option ℕ → ℕ → Outcome ByterError (List ℕ)
write_ops big (some w) value = ok (put_be w value)
write_ops little (some w) value = ok (put_le w value)
write_ops _ _ value = err unsupported_kind

-- The bytes that are appended to the buffer.
unfoldable pub write_integer : ℕ → Kind → EndianTag → Outcome ByterError (List ℕ)
unfolding write_ops
write_integer value kind endian = write_ops (default_big endian) (kind_width kind) value

unfoldable pub read_string : LengthType → EndianTag → List ℕ → Outcome ByterError (List ℕ × List ℕ)
unfolding read_integer
read_string length_type endian buff = do
  size ← or_err (string_length_sizes length_type) invalid_length_type
  (str_length, rest) ← read_integer (string_length_tags length_type) size (default_big endian) buff
  buffer_read str_length rest

-- `writeString` drops the error of `writeInteger`: then no length is written.
abbrev written_or_nothing : Outcome ByterError (List ℕ) → List ℕ
written_or_nothing (ok bs) = bs
written_or_nothing _ = []

write_length : LengthType → ℕ → EndianTag → List ℕ
unfolding write_integer
write_length no_length n endian = []
write_length other n endian = written_or_nothing (write_integer n (string_length_tags other) endian)

unfoldable pub write_string : List ℕ → LengthType → EndianTag → List ℕ
unfolding write_length
write_string s length_type endian = write_length length_type (length s) (default_big endian) ++ s
