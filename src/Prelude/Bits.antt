-- ===== src/Prelude/Bits.antt =====
-- Masks on one byte as arithmetic: tables over a small range, checked by evaluation.
use Prim.Native.Nat.{bit_or-bitwise, digits}
use meta_matrix_bridge.Prelude.{
  max, ◌≤◌, ◌∙◌, ℕ, zero, suc, ◌+◌, ◌*◌, ◌/◌, ◌%◌, ◌<◌, ◌≡◌, refl, Bool, true, ◌&&◌, arith, bit_and,
  bit_or, ◌==◌, ==_iff,
}

-- The test holds of every number below the bound.
unfoldable pub all_below : (ℕ → Bool) → ℕ → Bool
all_below test zero = true
all_below test (suc bound) = all_below test bound && test bound

pub all_below-at :
    (test : ℕ → Bool) (bound i : ℕ) → i < bound → all_below test bound ≡ true → test i ≡ true
unfolding all_below
all_below-at test zero i small passed = absurd (omega (arith, small))
all_below-at test (suc bound) i small passed = ground (arith, all_below-at test bound i)

-- Two functions agree below the bound if a table says so.
pub agree_below :
    (n : ℕ) (f g : ℕ → ℕ) → all_below (λ x. f x == g x) n ≡ true → (x : ℕ) → x < n → f x ≡ g x
agree_below n f g t x h = (==_iff _ _).0 (all_below-at _ n x h t)

pub low_seven : (b : ℕ) → b < 256 → bit_and b 0x7f ≡ b % 128
unfolding all_below
low_seven = agree_below 256 _ _ refl

pub top_bit : (b : ℕ) → b < 256 → bit_and b 0x80 ≡ b / 128 * 128
unfolding all_below
top_bit = agree_below 256 _ _ refl

pub set_top : (b : ℕ) → b < 128 → bit_or b 0x80 ≡ b + 128
unfolding all_below
set_top = agree_below 128 _ _ refl

-- A number whose last `k` binary digits are 0.
IsShifted : ℕ → ℕ → Type 0
IsShifted zero a = Unit
IsShifted (suc k) a = (b : ℕ) × (a ≡ b + b) × IsShifted k b

unfoldable pub power_of_two : ℕ → ℕ
power_of_two zero = 1
power_of_two (suc k) = power_of_two k + power_of_two k

IsShifted-times : (k x : ℕ) → IsShifted k (x * power_of_two k)
unfolding IsShifted power_of_two
IsShifted-times zero x = tt
IsShifted-times (suc k) x = (x * power_of_two k, omega arith, IsShifted-times k x)

digits-zero : (n a : ℕ) → a ≤ n → digits (λ b. b) max n a 0 ≡ a
digits-zero zero a h = omega (arith, h)
digits-zero (suc n) zero h = refl
digits-zero (suc n) (suc a) h = rw (digits-zero n (suc a / 2) (omega arith)) (omega arith)

digits-shifted :
    (n k a y : ℕ) → a ≤ n → IsShifted k a → y < power_of_two k → digits (λ b. b) max n a y ≡ a + y
unfolding IsShifted power_of_two
digits-shifted zero k a y h s small = omega arith
digits-shifted (suc n) k zero y h s small = omega arith
digits-shifted (suc n) zero (suc a) y h s small =
    let nothing : y ≡ 0 = omega arith in rw nothing (digits-zero (suc n) (suc a) h ∙ omega arith)
digits-shifted (suc n) (suc k) (suc a) y h (b, e, s) small =
    let half : suc a / 2 ≡ b = omega arith in
    let below : digits (λ b. b) max n b (y / 2) ≡ b + y / 2 =
      digits-shifted n k b (y / 2) (omega arith) s (omega arith) in
    rw (half, below) (omega arith)

-- Or of a shifted number and one that fits below it is their sum.
pub bit_or-shifted :
    (k x y : ℕ) → y < power_of_two k → bit_or (x * power_of_two k) y ≡ x * power_of_two k + y
bit_or-shifted k x y small =
    bit_or-bitwise (x * power_of_two k) y
    ∙ digits-shifted (x * power_of_two k) k (x * power_of_two k) y (omega arith)
        (IsShifted-times k x) small
