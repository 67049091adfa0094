-- ===== src/Byter/Integer/RoundTrip.antt =====
-- ReadInteger and readString on what writeInteger and writeString wrote.
use meta_matrix_bridge.Prelude.{
  ℕ, ◌+◌, ◌-◌, ◌^◌, ◌≤◌, ◌<◌, ◌≡◌, refl, ◌∙◌, List, [], ◌∷◌, ◌++◌, some, arith, length, take,
  replicate, take-append, drop-append, append-nil, append_assoc, length-append,
}
use meta_matrix_bridge.Prelude.Outcome.{ok}
use meta_matrix_bridge.Word.{put_be, put_le}
use meta_matrix_bridge.Word.RoundTrip.{length-put_be, length-put_le, get_be-put_be, get_le-put_le}
use meta_matrix_bridge.Byter.{
  Kind, EndianTag, unset_endian, big, little, other_endian, LengthType, no_length,
  string_length_tags, string_length_sizes, default_big, kind_width, uint16, uint16_length,
}
use meta_matrix_bridge.Byter.Integer.{
  buffer_read, read_ops, read_integer, write_integer, read_string, write_length, write_string,
}

no_padding : (n m : ℕ) → n ≤ m → replicate {A = ℕ} (n - m) 0 ≡ []
no_padding n m h = let e : n - m ≡ 0 = omega arith in rw e

buffer_read_exact : (xs ys : List ℕ) → buffer_read (length xs) (xs ++ ys) ≡ ok (xs, ys)
unfolding buffer_read
buffer_read_exact [] [] = refl
buffer_read_exact [] (y ∷ ys) = rw (no_padding 0 (length (y ∷ ys)) (omega arith))
buffer_read_exact (x ∷ xs) ys =
    let short : length (x ∷ xs) ≤ length (x ∷ (xs ++ ys)) = omega (arith, length-append xs ys) in
    rw (
      no_padding (length (x ∷ xs)) (length (x ∷ (xs ++ ys))) short,
      take-append xs ys,
      drop-append xs ys,
      append-nil,
    )

-- A read of exactly what stands at the front of the buffer.
pub buffer_read-append :
    (xs ys : List ℕ) (n : ℕ) → length xs ≡ n → buffer_read n (xs ++ ys) ≡ ok (xs, ys)
buffer_read-append xs ys n e = rw (← e) (buffer_read_exact xs ys)

-- A byte order that the package knows, the default included.
abbrev pub KnownEndian : EndianTag → Type 0
KnownEndian other_endian = ⊥
KnownEndian _ = Unit {0}

take_all : (xs : List ℕ) (w : ℕ) → length xs ≡ w → take w xs ≡ xs
take_all xs w e = rw (← e) (rw (append-nil xs) at (take-append xs []))

read_ops_be : (w v : ℕ) → v < 256 ^ w → read_ops big (some w) (put_be w v) ≡ ok v
unfolding read_ops
read_ops_be w v h =
    rw (length-put_be w v, take_all (put_be w v) w (length-put_be w v), get_be-put_be w v h)
      (ground arith)

read_ops_le : (w v : ℕ) → v < 256 ^ w → read_ops little (some w) (put_le w v) ≡ ok v
unfolding read_ops
read_ops_le w v h =
    rw (length-put_le w v, take_all (put_le w v) w (length-put_le w v), get_le-put_le w v h)
      (ground arith)

module _ (kind : Kind) (w : ℕ) (known : kind_width kind ≡ some w) (v : ℕ) (fits : v < 256 ^ w)
    (rest : List ℕ) where
  pub read_integer_big :
      (endian : EndianTag)
      → default_big endian ≡ big
      → read_integer kind w endian (put_be w v ++ rest) ≡ ok (v, rest)
  unfolding read_integer
  read_integer_big endian e =
      rw
        (e, known, buffer_read-append (put_be w v) rest w (length-put_be w v), read_ops_be w v fits)

  big_round_trip :
      (endian : EndianTag)
      → default_big endian ≡ big
      → (bs : List ℕ) × (write_integer v kind endian ≡ ok bs)
        × (length bs ≡ w)
        × (read_integer kind w endian (bs ++ rest) ≡ ok (v, rest))
  unfolding write_integer
  big_round_trip endian e =
      (put_be w v, rw (e, known), length-put_be w v, read_integer_big endian e)

  little_round_trip :
      (endian : EndianTag)
      → default_big endian ≡ little
      → (bs : List ℕ) × (write_integer v kind endian ≡ ok bs)
        × (length bs ≡ w)
        × (read_integer kind w endian (bs ++ rest) ≡ ok (v, rest))
  unfolding write_integer read_integer
  little_round_trip endian e = (
    put_le w v,
    rw (e, known),
    length-put_le w v,
    rw (e, known, buffer_read-append (put_le w v) rest w (length-put_le w v), read_ops_le w v fits),
  )

  -- Under every byte order that the package knows, the default included, an integer that fits its
  -- kind is written in as many bytes as the kind has, and read back from them.
  pub read-write_integer :
      (endian : EndianTag)
      → KnownEndian endian
      → (bs : List ℕ) × (write_integer v kind endian ≡ ok bs)
        × (length bs ≡ w)
        × (read_integer kind w endian (bs ++ rest) ≡ ok (v, rest))
  read-write_integer unset_endian k = big_round_trip unset_endian refl
  read-write_integer big k = big_round_trip big refl
  read-write_integer little k = little_round_trip little refl
  read-write_integer other_endian k = elim k [ ]

default_big_idem : (e : EndianTag) → default_big (default_big e) ≡ default_big e
default_big_idem unset_endian = refl
default_big_idem _ = refl

KnownEndian-default_big : (e : EndianTag) → KnownEndian e → KnownEndian (default_big e)
KnownEndian-default_big unset_endian k = tt
KnownEndian-default_big _ k = k

write_length_sized :
    (t : LengthType) (n : ℕ) (e : EndianTag) {w : ℕ} {bs : List ℕ}
    → string_length_sizes t ≡ some w
    → write_integer n (string_length_tags t) e ≡ ok bs
    → write_length t n e ≡ bs
unfolding write_length
write_length_sized no_length n e h k = cc
write_length_sized _ n e h k = rw k

-- A string that a length prefix of the unsigned kinds can count is written with that prefix and
-- read back, whatever follows it.
pub read-write_string :
    (t : LengthType) (e : EndianTag) (w : ℕ) (s rest : List ℕ)
    → string_length_sizes t ≡ some w
    → kind_width (string_length_tags t) ≡ some w
    → KnownEndian e
    → length s < 256 ^ w
    → (length (write_string s t e) ≡ w + length s)
      × (read_string t e (write_string s t e ++ rest) ≡ ok (s, rest))
unfolding write_string read_string
read-write_string t e w s rest sized known k fits =
    let (bs, wrote, len, got) =
      read-write_integer (string_length_tags t) w known (length s) fits (s ++ rest) (default_big e)
        (KnownEndian-default_big e k) in
    rw (write_length_sized t (length s) (default_big e) sized wrote) (
      length-append bs s ∙ omega arith,
      rw (sized, append_assoc bs s rest) (rw got (buffer_read-append s rest (length s) refl)),
    )

-- The strings of the MQTT structs: two bytes of length, the high one first.
pub write_string_u16 :
    (s : List ℕ) (e : EndianTag)
    → default_big e ≡ big
    → write_string s uint16_length e ≡ put_be 2 (length s) ++ s
unfolding write_string write_length write_integer
write_string_u16 s e h = rw h

pub read_string_u16 :
    (s rest : List ℕ) (e : EndianTag)
    → default_big e ≡ big
    → length s < 65536
    → read_string uint16_length e (put_be 2 (length s) ++ (s ++ rest)) ≡ ok (s, rest)
unfolding read_string
read_string_u16 s rest e h fits =
    rw (h, read_integer_big uint16 2 refl (length s) fits (s ++ rest) big refl)
      (buffer_read-append s rest (length s) refl)

-- Without a length type the string is written alone.
pub write_string_plain : (s : List ℕ) (e : EndianTag) → write_string s no_length e ≡ s
unfolding write_string write_length
write_string_plain s e = refl
