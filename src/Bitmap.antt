-- ===== src/Bitmap.antt =====
-- pkg/messagix/crypto/bitmap.go: Update. An int is its 64-bit pattern, and a text is the list of its bytes.
pub mod Marks
use meta_matrix_bridge.Prelude.{
  ℕ, suc, ◌+◌, ◌-◌, max, List, [], ◌∷◌, ◌++◌, Bool, Option, none, some, if◌then◌else◌, leb, ltb,
  ◌||◌, length, get_or, set, replicate, ◌==◌,
}

pub record Bitmap : Type 0 where
  pub bmap : List ℕ
  pub compressed_str : List ℕ

abbrev pub is_negative : ℕ → Bool
is_negative i = leb 9223372036854775808 i

-- maxIndex + 1, which is negative as an int where maxIndex is the largest int.
unfoldable pub needed : List ℕ → ℕ
needed [] = 0
needed (i ∷ indices) = max (if is_negative i then 0 else (i + 1)) (needed indices)

abbrev pub zeros : ℕ → List ℕ
zeros n = replicate n 0

-- `make` of a length, and the copy of the old bits; `none` is the panic on a negative length and on one
-- above `limit`, the longest slice that the run time can make.
unfoldable pub expand : ℕ → ℕ → List ℕ → Option (List ℕ)
expand limit size bits =
    if is_negative size || ltb limit size then none else some (bits ++ zeros (size - length bits))

unfoldable pub grow : ℕ → ℕ → List ℕ → Option (List ℕ)
unfolding expand
grow limit size bits = if ltb (length bits) size then expand limit size bits else some bits

-- A new bit drops the compressed text.
unfoldable pub mark_bit : ℕ → Bitmap → Bitmap
mark_bit i b = record {
  bmap = set b.bmap i 1;
  compressed_str = if get_or b.bmap i 0 == 0 then [] else b.compressed_str;
}

-- `none` is the panic of a negative index.
unfoldable pub mark : List ℕ → Bitmap → Option Bitmap
mark [] b = some b
mark (i ∷ indices) b =
    let rest = mark indices (mark_bit i b) in if is_negative i then none else rest

unfoldable pub update : ℕ → List ℕ → Bitmap → Option Bitmap
update limit indices b = elim (grow limit (needed indices) b.bmap) [
  | none ↦ none
  | some bits ↦ mark indices (record b { bmap = bits })
]
