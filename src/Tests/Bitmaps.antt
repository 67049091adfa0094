-- ===== src/Tests/Bitmaps.antt =====
-- A run of Update of pkg/messagix/crypto/bitmap.go.
use meta_matrix_bridge.Prelude.{◌≡◌, refl, arith, [], ◌∷◌, some, get_or, if◌then◌else◌}
use meta_matrix_bridge.Bitmap.{Bitmap, update}
use meta_matrix_bridge.Bitmap.Marks.{are_below, is_listed, update-Listed}

abbrev one_bit : Bitmap
one_bit = record { bmap = 1 ∷ []; compressed_str = 49 ∷ [] }

update-Listed_example :
    (c : Bitmap) × (update 1000 (3 ∷ 1 ∷ []) one_bit ≡ some c)
    × (get_or c.bmap 3 0 ≡ (if is_listed 3 (3 ∷ 1 ∷ []) then 1 else get_or one_bit.bmap 3 0))
unfolding are_below
update-Listed_example = update-Listed 1000 (3 ∷ 1 ∷ []) one_bit 3 (omega arith) refl
