-- ===== src/Numbers.antt =====
-- stoull and stol in base 16, stoi in base 10, and strtoll in base 16, as hw4 calls them: white
-- space, a sign, an optional 0x, then digits; what follows the digits is ignored.
use nctu_unix_programming.Base.{
  ◌<◌, ◌≡◌, refl, arith, Bool-cases, inl, inr, ℕ, zero, suc, ◌+◌, ◌-◌, ◌*◌, ◌%◌, ◌^◌, Bool, true,
  false, ◌&&◌, ◌||◌, Option, none, some, [], ◌∷◌, ltb, leb, ◌==◌, if◌then◌else◌,
}
use nctu_unix_programming.Base.Text.{Bytes}
use mathlib.Core.Option

-- `negsuc n` is -(n + 1).
pub data ℤ : Type 0 where
  pos : ℕ → ℤ
  negsuc : ℕ → ℤ

unfoldable pub is_space : ℕ → Bool
is_space c = c == 32 || leb 9 c && leb c 13

-- The value of a digit, if it is one in the base.
unfoldable pub digit_value : ℕ → ℕ → Option ℕ
digit_value base c =
    let v =
      if leb b'0' c && leb c b'9'
      then c - b'0'
      else if leb b'a' c && leb c b'f'
      then c - b'a' + 10
      else if leb b'A' c && leb c b'F'
      then c - b'A' + 10
      else 36 in
    if ltb v base then some v else none

-- The digits from here on, after a value `acc`.
unfoldable pub more_digits : ℕ → ℕ → Bytes → ℕ
unfolding digit_value
more_digits base acc [] = acc
more_digits base acc (c ∷ s) = elim (digit_value base c) [
  | none ↦ acc
  | some v ↦ more_digits base (acc * base + v) s
]

-- `none` where no digit stands: no conversion.
unfoldable pub digits_of : ℕ → Bytes → Option ℕ
unfolding more_digits
digits_of base [] = none
digits_of base (c ∷ s) = Option.map (λ v. more_digits base v s) (digit_value base c)

-- In base 16 a prefix 0x is skipped if a digit follows it.
unfoldable pub magnitude : ℕ → Bytes → Option ℕ
unfolding digits_of
magnitude base (zero_char ∷ x ∷ s) = elim (digits_of base s) [
  | some m ↦
      if base == 16 && zero_char == b'0' && (x == b'x' || x == b'X')
      then some m
      else digits_of base (zero_char ∷ x ∷ s)
  | none ↦ digits_of base (zero_char ∷ x ∷ s)
]
magnitude base s = digits_of base s

-- The sign: true for `-`.
unfoldable pub signed_magnitude : ℕ → Bytes → Option (Bool × ℕ)
unfolding magnitude
signed_magnitude base [] = none
signed_magnitude base (c ∷ s) =
    if c == b'-'
    then Option.map (λ m. (true, m)) (magnitude base s)
    else if c == b'+'
    then Option.map (λ m. (false, m)) (magnitude base s)
    else Option.map (λ m. (false, m)) (magnitude base (c ∷ s))

unfoldable pub skip_space : Bytes → Bytes
unfolding is_space
skip_space [] = []
skip_space (c ∷ s) = let rest = skip_space s in if is_space c then rest else c ∷ s

unfoldable pub read_number : ℕ → Bytes → Option (Bool × ℕ)
unfolding signed_magnitude skip_space
read_number base s = signed_magnitude base (skip_space s)

-- `none` is an exception: no digits, or out of range.
unfoldable pub stoull : Bytes → Option ℕ
unfolding read_number
stoull s = elim (read_number 16 s) [
  | none ↦ none
  | some (negative, m) ↦
      if leb (2 ^ 64) m then none else some (if negative then (2 ^ 64 - m) % 2 ^ 64 else m)
]

-- A number of the given sign within -2^(w-1) .. 2^(w-1) - 1; `half` is 2^(w-1).
unfoldable pub in_range : ℕ → Bool × ℕ → Option ℤ
in_range half (true, zero) = some (pos 0)
in_range half (true, suc m) = if ltb m half then some (negsuc m) else none
in_range half (false, m) = if ltb m half then some (pos m) else none

unfoldable pub stoi : Bytes → Option ℤ
unfolding read_number in_range
stoi s = elim (read_number 10 s) [ none ↦ none | some v ↦ in_range (2 ^ 31) v ]

unfoldable pub stol : Bytes → Option ℤ
unfolding read_number in_range
stol s = elim (read_number 16 s) [ none ↦ none | some v ↦ in_range (2 ^ 63) v ]

-- strtoll and strtol do not throw: no digits give 0, and out of range gives the nearest bound.
unfoldable pub strtoll : Bytes → ℤ
unfolding read_number in_range
strtoll s = elim (read_number 16 s) [
  | none ↦ pos 0
  | some (negative, m) ↦ elim (in_range (2 ^ 63) (negative, m)) [
    | some v ↦ v
    | none ↦ if negative then negsuc (2 ^ 63 - 1) else pos (2 ^ 63 - 1)
  ]
]

-- The conversion to a 64-bit unsigned type.
abbrev pub to_u64 : ℤ → ℕ
to_u64 (pos n) = n % 2 ^ 64
to_u64 (negsuc n) = 2 ^ 64 - 1 - n % 2 ^ 64

-- The values of an int, and of a long.
abbrev pub IsInt : ℤ → Type 0
IsInt (pos n) = n < 2 ^ 31
IsInt (negsuc n) = n < 2 ^ 31

abbrev pub IsLong : ℤ → Type 0
IsLong (pos n) = n < 2 ^ 63
IsLong (negsuc n) = n < 2 ^ 63

-- A 64-bit value stored in an int.
abbrev pub to_int : ℤ → ℤ
to_int z = let u = to_u64 z % 2 ^ 32 in if ltb u (2 ^ 31) then pos u else negsuc (2 ^ 32 - 1 - u)

pub to_int-IsInt : (z : ℤ) → IsInt z → to_int z ≡ z
to_int-IsInt (pos n) h =
    let small : n % 2 ^ 64 % 2 ^ 32 ≡ n = omega (arith, h) in
    let below : ltb n (2 ^ 31) ≡ true = ground arith in rw (small, below) refl
to_int-IsInt (negsuc n) h =
    let large : (2 ^ 64 - 1 - n % 2 ^ 64) % 2 ^ 32 ≡ 2 ^ 32 - 1 - n = omega (arith, h) in
    let above : ltb (2 ^ 32 - 1 - n) (2 ^ 31) ≡ false = ground arith in
    let back : 2 ^ 32 - 1 - (2 ^ 32 - 1 - n) ≡ n = omega (arith, h) in rw (large, above, back) refl

low_half-IsInt :
    (u : ℕ) → u < 2 ^ 32 → IsInt (if ltb u (2 ^ 31) then pos u else negsuc (2 ^ 32 - 1 - u))
low_half-IsInt u h = elim (Bool-cases (ltb u (2 ^ 31))) [
  | inl e ↦ rw e (ground (arith, e))
  | inr e ↦ rw e (ground (arith, e))
]

pub IsInt-to_int : (z : ℤ) → IsInt (to_int z)
IsInt-to_int z = low_half-IsInt (to_u64 z % 2 ^ 32) (omega arith)
