-- ===== src/Logger/Checkbuf.antt =====
-- checkbuf of hw2/logger.cpp: the first bytes of a buffer, as printable characters.
use nctu_unix_programming.Base.{
  ℕ, zero, suc, ◌+◌, ◌<◌, ◌≡◌, refl, ◌≢◌, Bool, ◌&&◌, Option, none, some, [], ◌∷◌, leb, ◌==◌,
  if◌then◌else◌, length, arith, ap,
}
use native.Mathlib.Nat.{add-zero, zero-add}
use nctu_unix_programming.Base.Text.{Bytes}

-- isprint, on the bytes of ASCII.
abbrev pub is_print : ℕ → Bool
is_print c = leb 32 c && leb c 126

abbrev pub zeros : ℕ → Bytes
zeros zero = []
zeros (suc n) = 0 ∷ zeros n

-- retchar from index i on, with n of its 32 bytes left; they were 0 before. `buf i` is charptr[i].
unfoldable pub check_from : ℕ → (ℕ → ℕ) → ℕ → Bytes
check_from zero buf i = []
check_from (suc n) buf i =
    let rest = check_from n buf (suc i) in
    if buf i == 0 then zeros (suc n) else if is_print (buf i) then buf i ∷ rest else b'.' ∷ rest

unfoldable pub checkbuf : (ℕ → ℕ) → Bytes
checkbuf buf = check_from 32 buf 0

-- The text that `%s` prints; `none` where the array holds no terminator.
unfoldable pub c_text : Bytes → Option Bytes
c_text [] = none
c_text (zero ∷ s) = some []
c_text (suc c ∷ s) = elim (c_text s) [ none ↦ none | some t ↦ some (suc c ∷ t) ]

length-zeros : (n : ℕ) → length (zeros n) ≡ n
length-zeros zero = refl
length-zeros (suc n) = ap suc (length-zeros n)

length-check_from : (n : ℕ) (buf : ℕ → ℕ) (i : ℕ) → length (check_from n buf i) ≡ n
unfolding check_from
length-check_from zero buf i = refl
length-check_from (suc n) buf i = ground (arith, length-zeros n, length-check_from n buf (suc i))

-- No write of the loop leaves the array of 32 bytes.
pub length-checkbuf : (buf : ℕ → ℕ) → length (checkbuf buf) ≡ 32
unfolding checkbuf
length-checkbuf buf = length-check_from 32 buf 0

c_text-cons : (c : ℕ) (s : Bytes) → c ≢ 0 → c_text s ≡ none → c_text (c ∷ s) ≡ none
unfolding c_text
c_text-cons zero s h e = absurd (h refl)
c_text-cons (suc c) s h e = rw e

c_text-cons_some : (c : ℕ) (s t : Bytes) → c ≢ 0 → c_text s ≡ some t → c_text (c ∷ s) ≡ some (c ∷ t)
unfolding c_text
c_text-cons_some zero s t h e = absurd (h refl)
c_text-cons_some (suc c) s t h e = rw e

c_text-zeros : (n : ℕ) → c_text (zeros (suc n)) ≡ some []
unfolding c_text
c_text-zeros n = refl

c_text-nil : c_text [] ≡ none
unfolding c_text
c_text-nil = refl

-- The character that stands for a byte.
abbrev pub shown_byte : ℕ → ℕ
shown_byte c = if is_print c then c else b'.'

shown_byte-ne : (c : ℕ) → c ≢ 0 → shown_byte c ≢ 0
shown_byte-ne c h = ground arith

check_from-cons :
    (n : ℕ) (buf : ℕ → ℕ) (i : ℕ)
    → buf i ≢ 0
    → check_from (suc n) buf i ≡ shown_byte (buf i) ∷ check_from n buf (suc i)
unfolding check_from
check_from-cons n buf i h = ground arith

check_from_full :
    (n : ℕ) (buf : ℕ → ℕ) (i : ℕ)
    → ((k : ℕ) → k < i + n → buf k ≢ 0)
    → c_text (check_from n buf i) ≡ none
unfolding check_from
check_from_full zero buf i h = c_text-nil
check_from_full (suc n) buf i h = rw (check_from-cons n buf i (h i (omega arith))) (
    c_text-cons (shown_byte (buf i)) (check_from n buf (suc i))
      (shown_byte-ne (buf i) (h i (omega arith)))
      (check_from_full n buf (suc i) (λ k l. h k (omega arith))))

-- If none of the first 32 bytes is zero, the array is filled to its end and has no terminator.
pub checkbuf_unterminated :
    (buf : ℕ → ℕ) → ((k : ℕ) → k < 32 → buf k ≢ 0) → c_text (checkbuf buf) ≡ none
unfolding checkbuf
checkbuf_unterminated buf h = check_from_full 32 buf 0 (λ k l. h k (omega arith))

-- The text that checkbuf stands for: n characters from index i on.
abbrev pub shown : (ℕ → ℕ) → ℕ → ℕ → Bytes
shown buf i zero = []
shown buf i (suc n) = shown_byte (buf i) ∷ shown buf (suc i) n

check_from_ends :
    (n : ℕ) (buf : ℕ → ℕ) (i : ℕ) → buf i ≡ 0 → check_from (suc n) buf i ≡ zeros (suc n)
unfolding check_from
check_from_ends n buf i h = rw h

check_from-shown :
    (n m : ℕ) (buf : ℕ → ℕ) (i : ℕ)
    → m < n
    → buf (i + m) ≡ 0
    → ((k : ℕ) → k < i + m → buf k ≢ 0)
    → c_text (check_from n buf i) ≡ some (shown buf i m)
check_from-shown zero m buf i h z nz = elim h [ ]
check_from-shown (suc n) zero buf i h z nz = rw ends (c_text-zeros n)
  where
    ends : check_from (suc n) buf i ≡ zeros (suc n)
    ends = check_from_ends n buf i (rw add-zero at z)
check_from-shown (suc n) (suc m) buf i h z nz = rw (check_from-cons n buf i (nz i (omega arith))) (
    c_text-cons_some (shown_byte (buf i)) (check_from n buf (suc i)) (shown buf (suc i) m)
      (shown_byte-ne (buf i) (nz i (omega arith)))
      (check_from-shown n m buf (suc i) (omega arith) (rw index z) (λ k l. nz k (omega arith))))
  where
    index : suc i + m ≡ i + suc m
    index = omega arith

-- If the first zero byte stands at n, below 32, the array holds the n bytes before it, with a point
-- for each that cannot be printed, and a terminator.
pub checkbuf-shown :
    (buf : ℕ → ℕ) (n : ℕ)
    → n < 32
    → buf n ≡ 0
    → ((k : ℕ) → k < n → buf k ≢ 0)
    → c_text (checkbuf buf) ≡ some (shown buf 0 n)
unfolding checkbuf
checkbuf-shown buf n h z nz =
    check_from-shown 32 n buf 0 h (rw zero-add z) (λ k l. nz k (omega arith))
