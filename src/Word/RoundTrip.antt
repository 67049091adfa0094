-- ===== src/Word/RoundTrip.antt =====
-- The bytes of integers in both byte orders, written and read at every width.
use meta_matrix_bridge.Prelude.{
  ℕ, zero, suc, ◌+◌, ◌*◌, ◌/◌, ◌%◌, ◌^◌, ◌<◌, ◌≤◌, ◌≡◌, refl, ◌∙◌, ap, List, [], ◌∷◌, ◌++◌, arith,
  length, length-append, All, All-append,
}
use native.Mathlib.Nat.{pow-suc}
use meta_matrix_bridge.Word.{IsByte, put_be, get_be_from, get_be, put_le, get_le}

pub length-put_le : (k v : ℕ) → length (put_le k v) ≡ k
unfolding put_le
length-put_le zero v = refl
length-put_le (suc k) v = ap suc (length-put_le k (v / 256))

pub length-put_be : (k v : ℕ) → length (put_be k v) ≡ k
unfolding put_be
length-put_be zero v = refl
length-put_be (suc k) v =
    omega (arith, length-append (put_be k (v / 256)) ((v % 256) ∷ []), length-put_be k (v / 256))

pub put_le-IsByte : (k v : ℕ) → All IsByte (put_le k v)
unfolding put_le
put_le-IsByte zero v = tt
put_le-IsByte (suc k) v = (omega arith, put_le-IsByte k (v / 256))

pub put_be-IsByte : (k v : ℕ) → All IsByte (put_be k v)
unfolding put_be
put_be-IsByte zero v = tt
put_be-IsByte (suc k) v =
    All-append IsByte (put_be k (v / 256)) _ (put_be-IsByte k (v / 256)) (omega arith, tt)

pub get_le-put_le : (k v : ℕ) → v < 256 ^ k → get_le (put_le k v) ≡ v
unfolding put_le get_le
get_le-put_le zero v h = omega arith
get_le-put_le (suc k) v h = omega (arith, get_le-put_le k (v / 256) (omega arith))

get_be_from_snoc :
    (acc : ℕ) (bs : List ℕ) (b : ℕ)
    → get_be_from acc (bs ++ (b ∷ [])) ≡ get_be_from acc bs * 256 + b
unfolding get_be_from
get_be_from_snoc acc [] b = refl
get_be_from_snoc acc (c ∷ bs) b = get_be_from_snoc (acc * 256 + c) bs b

pub get_be-put_be : (k v : ℕ) → v < 256 ^ k → get_be (put_be k v) ≡ v
unfolding get_be put_be
get_be-put_be zero v h = unfold get_be_from in omega arith
get_be-put_be (suc k) v h =
    get_be_from_snoc 0 (put_be k (v / 256)) (v % 256)
    ∙ omega (arith, get_be-put_be k (v / 256) (omega arith))

pow_step : (k : ℕ) → 256 ^ suc k ≡ 256 * 256 ^ k
pow_step k = omega (arith, pow-suc 256 k)

scale_lt : (n b p : ℕ) → b < 256 → (n * 256 + b + 1) * p ≤ (n + 1) * (256 * p)
scale_lt n b p h = grind arith

get_be_from_bound :
    (acc : ℕ) (bs : List ℕ) → All IsByte bs → get_be_from acc bs < (acc + 1) * 256 ^ length bs
unfolding get_be_from
get_be_from_bound acc [] h = omega arith
get_be_from_bound acc (b ∷ bs) h =
    rw (pow_step (length bs)) (
      omega (arith, scale_lt acc b (256 ^ length bs) h.0, get_be_from_bound (acc * 256 + b) bs h.1))

pub get_be-lt : (bs : List ℕ) → All IsByte bs → get_be bs < 256 ^ length bs
unfolding get_be
get_be-lt bs h = omega (arith, get_be_from_bound 0 bs h)

pub get_le-lt : (bs : List ℕ) → All IsByte bs → get_le bs < 256 ^ length bs
unfolding get_le
get_le-lt [] h = omega arith
get_le-lt (b ∷ bs) h = rw (pow_step (length bs)) (omega (arith, h.0, get_le-lt bs h.1))
