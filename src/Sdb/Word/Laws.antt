-- ===== src/Sdb/Word/Laws.antt =====
-- What a patched word is, byte by byte.
use nctu_unix_programming.Base.{
  ℕ, zero, suc, ◌+◌, ◌*◌, ◌/◌, ◌^◌, ◌<◌, bit_and, bit_or, ◌≡◌, refl, ap, ◌∙◌, arith, ◌==◌,
  if◌then◌else◌,
}
use nctu_unix_programming.Base.Bits.{bit_and_digit, bit_or_digit, bit_and-ones, bit_or-zero}
use nctu_unix_programming.Sdb.Word.{word_size, byte_of, patch}

abbrev halves : ℕ → ℕ → ℕ
halves zero x = x
halves (suc k) x = halves k (x / 2)

abbrev doubles : ℕ → ℕ → ℕ
doubles zero x = x
doubles (suc k) x = doubles k x * 2

-- A mask whose k low digits are 0 looks at the digits above them only.
bit_and-doubles : (k x m : ℕ) → bit_and x (doubles k m) ≡ doubles k (bit_and (halves k x) m)
bit_and-doubles zero x m = refl
bit_and-doubles (suc k) x m = omega (
  arith,
  bit_and_digit x (doubles k m * 2),
  ap (λ (t : ℕ). bit_and (x / 2) t) even,
  bit_and-doubles k (x / 2) m,
)
  where
    even : doubles k m * 2 / 2 ≡ doubles k m
    even = omega arith

-- Below k zero digits there is room for a number of k digits.
bit_or-doubles :
    (k y c : ℕ) → y < 2 ^ 56 → c < doubles k 1 → bit_or (doubles k y) c ≡ doubles k y + c
bit_or-doubles zero y c hy hc =
    omega (arith, bit_or-zero 56 y hy, ap (λ (t : ℕ). bit_or y t) no_room)
  where
    no_room : c ≡ 0
    no_room = omega arith
bit_or-doubles (suc k) y c hy hc = omega (
  arith,
  bit_or_digit (doubles k y * 2) c,
  ap (λ (t : ℕ). bit_or t (c / 2)) even,
  bit_or-doubles k y (c / 2) hy (omega arith),
)
  where
    even : doubles k y * 2 / 2 ≡ doubles k y
    even = omega arith

-- The patch replaces the low byte and keeps the seven above it.
pub patch_lem : (code b : ℕ) → code < word_size → b < 256 → patch code b ≡ code / 256 * 256 + b
unfolding patch
patch_lem code b hc hb =
    ap (λ (t : ℕ). bit_or t b) masked
    ∙ bit_or-doubles 8 (code / 256) b (omega arith) (omega arith)
    ∙ omega arith
  where
    masked : bit_and code 0xffffffffffffff00 ≡ doubles 8 (code / 256)
    masked =
        bit_and-doubles 8 code 0xffffffffffffff
        ∙ ap (λ (t : ℕ). doubles 8 t) (bit_and-ones 56 (halves 8 code) (omega arith) ∙ omega arith)

pub patch-lt : (code b : ℕ) → code < word_size → b < 256 → patch code b < word_size
patch-lt code b hc hb = omega (arith, patch_lem code b hc hb)

-- In the patch of a 64-bit word by a byte, the low byte is the new one, and the others are those
-- of the word.
pub byte_of-patch :
    (i code b : ℕ)
    → i < 8
    → code < word_size
    → b < 256
    → byte_of i (patch code b) ≡ (if i == 0 then b else byte_of i code)
byte_of-patch zero code b h hc hb = omega (arith, patch_lem code b hc hb)
byte_of-patch (suc zero) code b h hc hb = omega (arith, patch_lem code b hc hb)
byte_of-patch (suc (suc zero)) code b h hc hb = omega (arith, patch_lem code b hc hb)
byte_of-patch (suc (suc (suc zero))) code b h hc hb = omega (arith, patch_lem code b hc hb)
byte_of-patch (suc (suc (suc (suc zero)))) code b h hc hb = omega (arith, patch_lem code b hc hb)
byte_of-patch (suc (suc (suc (suc (suc zero))))) code b h hc hb =
    omega (arith, patch_lem code b hc hb)
byte_of-patch (suc (suc (suc (suc (suc (suc zero)))))) code b h hc hb =
    omega (arith, patch_lem code b hc hb)
byte_of-patch (suc (suc (suc (suc (suc (suc (suc zero))))))) code b h hc hb =
    omega (arith, patch_lem code b hc hb)
byte_of-patch (suc (suc (suc (suc (suc (suc (suc (suc i)))))))) code b h hc hb =
    absurd (omega arith)

pub byte_of-lt : (i w : ℕ) → byte_of i w < 256
byte_of-lt i w = omega arith
