-- ===== src/Base/Digits.antt =====
-- The binary digits of shifted, complemented and joined words, and the bounds of `&` and `|`.
use Prim.Native.Nat.{ℕ, zero, suc, ◌-◌, ◌/◌, ◌%◌, ◌^◌, ◌<◌, bit_and, bit_or, bit_and-bitwise}
use mathlib.Core.Path.{◌≡◌, refl, sym, ap, ◌∙◌}
use native.Mathlib.Nat.{pow-suc, pow-succ', div-div-eq-div-mul}
use native.Mathlib.Omega.{arith}
use nctu_unix_programming.Base.Bits.{digit, bit_and_digit, bit_or_digit}
use nctu_unix_programming.Base.Tests.{◌==◌, if◌then◌else◌}

pub digit-lt : (i x : ℕ) → digit i x < 2
digit-lt zero x = omega arith
digit-lt (suc i) x = digit-lt i (x / 2)

pub digit-zero : (i : ℕ) → digit i 0 ≡ 0
digit-zero zero = refl
digit-zero (suc i) = digit-zero i

-- A power of two has one digit.
pub digit-pow : (i k : ℕ) → digit i (2 ^ k) ≡ (if i == k then 1 else 0)
digit-pow zero zero = refl
digit-pow zero (suc k) = ground (arith, pow-suc 2 k)
digit-pow (suc i) zero = ground (arith, digit-zero i)
digit-pow (suc i) (suc k) = ap (digit i) half ∙ digit-pow i k ∙ ground arith
  where
    half : 2 ^ suc k / 2 ≡ 2 ^ k
    half = omega (arith, pow-suc 2 k)

-- The complement of a word of w digits.
pub digit-complement : (w i x : ℕ) → x < 2 ^ w → i < w → digit i (2 ^ w - 1 - x) ≡ 1 - digit i x
digit-complement zero i x h l = absurd (omega arith)
digit-complement (suc w) zero x h l = omega (arith, pow-suc 2 w)
digit-complement (suc w) (suc i) x h l =
    ap (digit i) half ∙ digit-complement w i (x / 2) (omega (arith, pow-suc 2 w)) (omega arith)
  where
    half : (2 ^ suc w - 1 - x) / 2 ≡ 2 ^ w - 1 - x / 2
    half = omega (arith, pow-suc 2 w)

-- The last digit after a shift to the right.
pub digit-shift : (k x : ℕ) → digit k x ≡ x / 2 ^ k % 2
digit-shift zero x = omega arith
digit-shift (suc k) x =
    digit-shift k (x / 2)
    ∙ ap (λ (t : ℕ). t % 2)
        (div-div-eq-div-mul x 2 (2 ^ k) ∙ ap (λ (t : ℕ). x / t) (sym (pow-succ' 2 k)))

pub one-bit_and : (x : ℕ) → bit_and 1 x ≡ x % 2
one-bit_and x = omega (arith, bit_and_digit 1 x, bit_and-bitwise 0 (x / 2))

pub bit_or-lt : (k a b : ℕ) → a < 2 ^ k → b < 2 ^ k → bit_or a b < 2 ^ k
bit_or-lt zero a b ha hb =
    omega (arith, ap (λ (t : ℕ). bit_or t b) a_none, ap (λ (t : ℕ). bit_or 0 t) b_none)
  where
    a_none : a ≡ 0
    a_none = omega arith

    b_none : b ≡ 0
    b_none = omega arith
bit_or-lt (suc k) a b ha hb = omega (
  arith,
  pow-suc 2 k,
  bit_or_digit a b,
  bit_or-lt k (a / 2) (b / 2) (omega (arith, pow-suc 2 k)) (omega (arith, pow-suc 2 k)),
)

pub bit_and-lt : (k a b : ℕ) → a < 2 ^ k → bit_and a b < 2 ^ k
bit_and-lt zero a b ha = omega (arith, ap (λ (t : ℕ). bit_and t b) a_none, bit_and-bitwise 0 b)
  where
    a_none : a ≡ 0
    a_none = omega arith
bit_and-lt (suc k) a b ha = omega (
  arith,
  pow-suc 2 k,
  bit_and_digit a b,
  bit_and-lt k (a / 2) (b / 2) (omega (arith, pow-suc 2 k)),
)

pow_pos : (w : ℕ) → 0 < 2 ^ w
pow_pos zero = omega arith
pow_pos (suc w) = omega (arith, pow-suc 2 w, pow_pos w)

pub pow-lt : (k w : ℕ) → k < w → 2 ^ k < 2 ^ w
pow-lt zero zero h = absurd (omega arith)
pow-lt zero (suc w) h = omega (arith, pow-suc 2 w, pow_pos w)
pow-lt (suc k) zero h = absurd (omega arith)
pow-lt (suc k) (suc w) h = omega (arith, pow-suc 2 k, pow-suc 2 w, pow-lt k w (omega arith))
