-- ===== src/Bitmap/Marks.antt =====
-- Update of bitmap.go: the bits that it sets.
use meta_matrix_bridge.Prelude.{
  ℕ, zero, suc, ◌+◌, ◌-◌, ◌<◌, ◌≤◌, ◌≡◌, refl, ap, ◌∙◌, max, List, [], ◌∷◌, ◌++◌, Bool, true, false,
  not, ◌&&◌, none, some, if◌then◌else◌, length, ltb, ◌||◌, Bool-cases, inl, inr, get_or, set,
  length-append, length-replicate, ◌==◌, arith,
}
use meta_matrix_bridge.Bitmap.{
  Bitmap, is_negative, needed, zeros, expand, grow, mark_bit, mark, update,
}

unfoldable pub are_indices : List ℕ → Bool
are_indices [] = true
are_indices (i ∷ indices) = not (is_negative i) && are_indices indices

unfoldable pub is_listed : ℕ → List ℕ → Bool
is_listed i [] = false
is_listed i (j ∷ indices) = let rest = is_listed i indices in if j == i then true else rest

get_or-set :
    (xs : List ℕ) (i j : ℕ)
    → j < length xs
    → get_or (set xs j 1) i 0 ≡ (if j == i then 1 else get_or xs i 0)
get_or-set [] i j h = ground arith
get_or-set (x ∷ xs) zero zero h = refl
get_or-set (x ∷ xs) (suc i) zero h = ground arith
get_or-set (x ∷ xs) zero (suc j) h = ground arith
get_or-set (x ∷ xs) (suc i) (suc j) h = rw (get_or-set xs i j (omega arith)) (ground arith)

length-set : (xs : List ℕ) (j : ℕ) → length (set xs j 1) ≡ length xs
length-set [] j = refl
length-set (x ∷ xs) zero = refl
length-set (x ∷ xs) (suc j) = ap suc (length-set xs j)

get_or-replicate : (n i : ℕ) → get_or (zeros n) i 0 ≡ 0
get_or-replicate zero i = refl
get_or-replicate (suc n) zero = refl
get_or-replicate (suc n) (suc i) = get_or-replicate n i

get_or-expand : (xs : List ℕ) (n i : ℕ) → get_or (xs ++ zeros n) i 0 ≡ get_or xs i 0
get_or-expand [] n i = get_or-replicate n i
get_or-expand (x ∷ xs) n zero = refl
get_or-expand (x ∷ xs) n (suc i) = get_or-expand xs n i

either :
    (p q : Bool) (x : ℕ)
    → (if p then 1 else (if q then 1 else x)) ≡ (if (if q then true else p) then 1 else x)
either p q x = ground arith

mark-Listed :
    (indices : List ℕ) (b : Bitmap) (i : ℕ)
    → are_indices indices ≡ true
    → needed indices ≤ length b.bmap
    → (c : Bitmap) × (mark indices b ≡ some c)
      × (get_or c.bmap i 0 ≡ (if is_listed i indices then 1 else get_or b.bmap i 0))
unfolding are_indices needed mark mark_bit is_listed
mark-Listed [] b i h room = (b, refl, refl)
mark-Listed (j ∷ indices) b i h room =
    let index : is_negative j ≡ false = ground arith in
    let rest : are_indices indices ≡ true = ground arith in
    let wide : max (j + 1) (needed indices) ≤ length b.bmap = rw index at room in
    let inside : j < length b.bmap = omega (arith, wide) in
    let marked : (c : Bitmap) × (mark indices (mark_bit j b) ≡ some c)
        × (get_or c.bmap i 0 ≡ (if is_listed i indices then 1 else get_or (set b.bmap j 1) i 0)) =
      mark-Listed indices (mark_bit j b) i rest (rw (length-set b.bmap j) (omega (arith, wide))) in
    (
      marked.0,
      ap (λ n. if n then none else mark indices (mark_bit j b)) index ∙ marked.1,
      marked.2
          ∙ ap (λ x. if is_listed i indices then 1 else x) (get_or-set b.bmap i j inside)
          ∙ either (is_listed i indices) (j == i) (get_or b.bmap i 0),
    )

-- Every index is below the bound.
unfoldable pub are_below : ℕ → List ℕ → Bool
are_below limit [] = true
are_below limit (i ∷ indices) = ltb i limit && are_below limit indices

needed_below :
    (limit : ℕ) (indices : List ℕ) → are_below limit indices ≡ true → needed indices ≤ limit
unfolding are_below needed
needed_below limit [] h = omega arith
needed_below limit (i ∷ indices) h = ground (arith, needed_below limit indices)

are_below-indices :
    (limit : ℕ) (indices : List ℕ)
    → limit < 9223372036854775808
    → are_below limit indices ≡ true
    → are_indices indices ≡ true
unfolding are_below are_indices
are_below-indices limit [] small h = refl
are_below-indices limit (i ∷ indices) small h =
    ground (arith, are_below-indices limit indices small)

-- The slice is made, is long enough, and has the old bits.
grow-Keeps :
    (limit size : ℕ) (bits : List ℕ) (i : ℕ)
    → limit < 9223372036854775808
    → size ≤ limit
    → (grown : List ℕ) × (grow limit size bits ≡ some grown)
      × (size ≤ length grown)
      × (get_or grown i 0 ≡ get_or bits i 0)
unfolding grow expand
grow-Keeps limit size bits i small fits = elim (Bool-cases (ltb (length bits) size)) [
  | inl longer ↦
      let made : (is_negative size || ltb limit size) ≡ false = ground arith in
      (
        bits ++ zeros (size - length bits),
        rw (longer, made) refl,
        rw
            (
              length-append bits (zeros (size - length bits)),
              length-replicate {A = ℕ} (size - length bits) 0,
            )
            (omega arith),
        get_or-expand bits (size - length bits) i,
      )
  | inr enough ↦ (bits, rw enough refl, ground arith, refl)
]

-- Update with indices that are not negative and below the longest slice that the run time can make sets
-- exactly the listed bits and leaves the others, growing the map where it has to, whatever the map was.
pub update-Listed :
    (limit : ℕ) (indices : List ℕ) (b : Bitmap) (i : ℕ)
    → limit < 9223372036854775808
    → are_below limit indices ≡ true
    → (c : Bitmap) × (update limit indices b ≡ some c)
      × (get_or c.bmap i 0 ≡ (if is_listed i indices then 1 else get_or b.bmap i 0))
unfolding update
update-Listed limit indices b i small below =
    let (bits, made, room, old) =
      grow-Keeps limit (needed indices) b.bmap i small (needed_below limit indices below) in
    let (c, marked, bit) =
      mark-Listed indices (record b { bmap = bits }) i (are_below-indices limit indices small below)
        room in
    (c, rw (made, update) marked, bit ∙ ap (λ x. if is_listed i indices then 1 else x) old)

-- Update panics on the largest int, whatever the map was, as long as it is shorter than that.
update-panics :
    (limit : ℕ) (b : Bitmap)
    → length b.bmap < 9223372036854775808
    → update limit (9223372036854775807 ∷ []) b ≡ none
unfolding update grow expand needed
update-panics limit b short =
    let longer : ltb (length b.bmap) 9223372036854775808 ≡ true = ground arith in
    rw (longer, grow, update) refl
