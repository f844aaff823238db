-- ===== src/Lsof/Text.antt =====
-- Text as hw1.cpp handles it: `ss >> word`, to_string, is_number.
use nctu_unix_programming.Base.{
  ℕ, zero, suc, ◌+◌, ◌/◌, ◌%◌, Bool, true, false, ◌&&◌, ◌||◌, List, [], ◌∷◌, ◌++◌, leb, ◌==◌,
  if◌then◌else◌,
}
use nctu_unix_programming.Base.Text.{Bytes, same}
use nctu_unix_programming.Numbers.{is_space}

-- A word that is pushed only if it is not empty.
abbrev word_if_any : Bytes → List Bytes
word_if_any [] = []
word_if_any (c ∷ w) = (c ∷ w) ∷ []

-- The words that `while (ss >> word)` reads from a line; `run` is the word so far.
unfoldable pub words_from : Bytes → Bytes → List Bytes
unfolding is_space
words_from run [] = word_if_any run
words_from run (c ∷ s) =
    let closed = word_if_any run ++ words_from [] s in
    let longer = words_from (run ++ (c ∷ [])) s in if is_space c then closed else longer

unfoldable pub words : Bytes → List Bytes
unfolding words_from
words line = words_from [] line

-- isdigit
abbrev pub is_digit : ℕ → Bool
is_digit c = leb b'0' c && leb c b'9'

-- The iterator stops at the first byte that is no digit; what is left from there.
unfoldable pub skip_digits : Bytes → Bytes
skip_digits [] = []
skip_digits (c ∷ s) = let rest = skip_digits s in if is_digit c then rest else c ∷ s

abbrev pub is_empty : Bytes → Bool
is_empty [] = true
is_empty (c ∷ s) = false

unfoldable pub is_number : Bytes → Bool
unfolding skip_digits
is_number str = (if is_empty str then false else true) && is_empty (skip_digits str)

-- DigitFilter of scandir: the first byte of a name is a digit.
unfoldable pub digit_filter : Bytes → Bool
digit_filter [] = false
digit_filter (c ∷ name) = is_digit c

-- to_string of a number of at most n + 1 digits.
unfoldable pub decimal : ℕ → ℕ → Bytes
decimal zero v = (b'0' + v % 10) ∷ []
decimal (suc n) v =
    let more = decimal n (v / 10) ++ ((b'0' + v % 10) ∷ []) in
    if leb 10 v then more else (b'0' + v % 10) ∷ []

-- to_string of an unsigned long: twenty digits are enough.
unfoldable pub to_string : ℕ → Bytes
unfolding decimal
to_string v = decimal 19 v

-- text.find(part) != npos
abbrev is_prefix : Bytes → Bytes → Bool
is_prefix [] s = true
is_prefix (c ∷ part) [] = false
is_prefix (c ∷ part) (b ∷ s) = c == b && is_prefix part s

unfoldable pub has_part : Bytes → Bytes → Bool
has_part part [] = is_empty part
has_part part (c ∷ s) = is_prefix part (c ∷ s) || has_part part s

-- Whether a word stands in a list of words.
unfoldable pub has_word : Bytes → List Bytes → Bool
has_word w [] = false
has_word w (x ∷ xs) = same x w || has_word w xs
