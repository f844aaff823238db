-- ===== src/Sdb/Word.antt =====
-- 64-bit words as the debugger handles them: their bytes, the patch of the low byte, and the
-- printable view of a word (hex_to_char).
pub mod Laws
use nctu_unix_programming.Base.{
  ℕ, ◌+◌, ◌-◌, ◌/◌, ◌%◌, ◌^◌, bit_and, bit_or, Bool, ◌&&◌, List, [], ◌∷◌, map, leb, if◌then◌else◌,
}
use nctu_unix_programming.Base.Text.{Bytes}

abbrev pub word_size : ℕ
word_size = 2 ^ 64

-- x - 1 on unsigned long long.
abbrev pub word_pred : ℕ → ℕ
word_pred x = (x + word_size - 1) % word_size

-- ((unsigned char *) &code)[i], on a little-endian machine.
abbrev pub byte_of : ℕ → ℕ → ℕ
byte_of i w = w / 256 ^ i % 256

-- (code & 0xffffffffffffff00) | b
unfoldable pub patch : ℕ → ℕ → ℕ
patch code b = bit_or (bit_and code 0xffffffffffffff00) b

abbrev pub int3 : ℕ
int3 = 0xcc

abbrev pub bytes_of : ℕ → Bytes
bytes_of w =
    byte_of 0 w
    ∷ byte_of 1 w
    ∷ byte_of 2 w
    ∷ byte_of 3 w
    ∷ byte_of 4 w
    ∷ byte_of 5 w
    ∷ byte_of 6 w
    ∷ byte_of 7 w
    ∷ []

-- The test of one byte, and the character that stands for it.
unfoldable pub printable : ℕ → ℕ
printable c = if leb 32 c && leb c 126 then c else b'.'

unfoldable pub hex_to_char : ℕ → Bytes
unfolding printable
hex_to_char code = map printable (bytes_of code)
