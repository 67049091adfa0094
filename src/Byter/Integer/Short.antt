-- ===== src/Byter/Integer/Short.antt =====
-- What the package does with input that ends too early, and with tags that it does not support.
use meta_matrix_bridge.Prelude.{
  ℕ, zero, suc, false, ◌-◌, ◌≤◌, ◌≡◌, refl, ap, ◌∙◌, List, [], ◌∷◌, ◌++◌, none, some, length,
  replicate, length-append, length-replicate, arith, take, drop,
}
use meta_matrix_bridge.Prelude.Outcome.{ok, err, is_ok, not_ok-bind}
use meta_matrix_bridge.Word.{get_be}
use meta_matrix_bridge.Byter.{
  Kind, EndianTag, unset_endian, kind_width, unsupported_kind, default_big, LengthType,
  int16_length, int32_length, int64_length, int16, int32, int64,
}
use meta_matrix_bridge.Byter.Integer.{
  buffer_read, read_op, read_ops, write_ops, write_length, read_integer, read_string, write_integer,
  write_string,
}

abbrev zeros : ℕ → List ℕ
zeros n = replicate n 0

take_over : (n : ℕ) (xs : List ℕ) → length xs ≤ n → take n xs ≡ xs
take_over zero [] h = refl
take_over (suc n) [] h = refl
take_over zero (x ∷ xs) h = absurd (omega arith)
take_over (suc n) (x ∷ xs) h = ap (λ t. x ∷ t) (take_over n xs (omega arith))

drop_over : (n : ℕ) (xs : List ℕ) → length xs ≤ n → drop n xs ≡ []
drop_over zero [] h = refl
drop_over (suc n) [] h = refl
drop_over zero (x ∷ xs) h = absurd (omega arith)
drop_over (suc n) (x ∷ xs) h = drop_over n xs (omega arith)

buffer_read_short :
    (n b : ℕ) (bs : List ℕ)
    → length (b ∷ bs) ≤ n
    → buffer_read n (b ∷ bs) ≡ ok ((b ∷ bs) ++ zeros (n - length (b ∷ bs)), [])
unfolding buffer_read
buffer_read_short n b bs h = rw (take_over n (b ∷ bs) h, drop_over n (b ∷ bs) h)

-- An integer that the buffer holds only in part is no error: ReadInteger takes what is there and
-- reads zeros for the bytes that are missing. Only an empty buffer is an error.
pub read_integer_short :
    (kind : Kind) (w b : ℕ) (bs : List ℕ)
    → kind_width kind ≡ some w
    → length (b ∷ bs) ≤ w
    → read_integer kind w unset_endian (b ∷ bs)
      ≡ ok (get_be ((b ∷ bs) ++ zeros (w - length (b ∷ bs))), [])
unfolding read_integer read_ops read_op
read_integer_short kind w b bs known h =
    rw (buffer_read_short w b bs h, known)
      (rw (take_over w padded (omega (arith, full))) (ground (arith, full)))
  where
    padded : List ℕ
    padded = (b ∷ bs) ++ zeros (w - length (b ∷ bs))

    full : length padded ≡ w
    full =
        length-append (b ∷ bs) _
        ∙ rw (length-replicate {A = ℕ} (w - length (b ∷ bs)) 0) (omega arith)

-- The signed length types wider than a byte: both tables of lengths have them, and the table of
-- operations has not.
abbrev pub IsSignedLength : LengthType → Type 0
IsSignedLength int16_length = Unit {0}
IsSignedLength int32_length = Unit {0}
IsSignedLength int64_length = Unit {0}
IsSignedLength _ = ⊥

no_write_ops : (e : EndianTag) (n : ℕ) → write_ops e none n ≡ err unsupported_kind
unfolding write_ops
no_write_ops unset_endian n = refl
no_write_ops _ n = refl

no_read_ops : (e : EndianTag) (bs : List ℕ) → read_ops e none bs ≡ err unsupported_kind
unfolding read_ops
no_read_ops unset_endian bs = refl
no_read_ops _ bs = refl

never_read :
    (size : ℕ) (kind : Kind) (e : EndianTag) (buff : List ℕ)
    → kind_width kind ≡ none
    → is_ok (read_integer kind (suc size) e buff) ≡ false
unfolding read_integer buffer_read
never_read size kind e [] h = ground arith
never_read size kind e (b ∷ bs) h = rw h (rw (no_read_ops (default_big e)))

-- With a signed length type wider than a byte a string is written with no length in front of it,
-- and no string is ever read.
pub signed_length :
    (t : LengthType) (e : EndianTag) (s buff : List ℕ)
    → IsSignedLength t
    → (write_string s t e ≡ s) × (is_ok (read_string t e buff) ≡ false)
unfolding write_string write_length write_integer read_string
signed_length int16_length e s buff h =
    (rw no_write_ops, not_ok-bind _ _ (never_read 1 int16 (default_big e) buff refl))
signed_length int32_length e s buff h =
    (rw no_write_ops, not_ok-bind _ _ (never_read 3 int32 (default_big e) buff refl))
signed_length int64_length e s buff h =
    (rw no_write_ops, not_ok-bind _ _ (never_read 7 int64 (default_big e) buff refl))
signed_length _ e s buff h = elim h [ ]
