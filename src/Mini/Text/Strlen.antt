-- ===== src/Mini/Text/Strlen.antt =====
-- strlen of hw3/libmini.c against the place of the first zero byte.
use nctu_unix_programming.Base.{
  ℕ, zero, suc, ◌+◌, ◌<◌, ◌^◌, ◌≡◌, refl, ap, ◌∙◌, ◌≢◌, Bool, true, not, ◌&&◌, ◌==◌, some, [], ◌∷◌,
  length, get_or, arith, ==_ne,
}
use native.Mathlib.Nat.{add-zero, zero-add}
use nctu_unix_programming.Base.Text.{Bytes}
use nctu_unix_programming.Mini.Text.{strlen, strlen_loop, chars}

strlen_loop_lem :
    (fuel n count : ℕ) (s : ℕ → ℕ)
    → n < fuel
    → s (count + n) ≡ 0
    → ((k : ℕ) → k < count + n → s k ≢ 0)
    → strlen_loop fuel s count ≡ some (count + n)
unfolding strlen_loop
strlen_loop_lem zero n count s h z nz = absurd (omega arith)
strlen_loop_lem (suc fuel) zero count s h z nz =
    let e : s count ≡ 0 = rw add-zero at z in rw (e, add-zero) refl
strlen_loop_lem (suc fuel) (suc n) count s h z nz =
    rw (==_ne (s count) 0 (nz count (omega arith))) (
      strlen_loop_lem fuel n (suc count) s (omega arith) (rw next z) (λ k l. nz k (omega arith))
      ∙ ap some next)
  where
    next : suc count + n ≡ count + suc n
    next = omega arith

-- If the first zero byte stands at n, which a count of the type size_t can hold, strlen finds n.
pub strlen_first :
    (s : ℕ → ℕ) (n : ℕ) → n < 2 ^ 63 → s n ≡ 0 → ((k : ℕ) → k < n → s k ≢ 0) → strlen s ≡ some n
unfolding strlen
strlen_first s n h z nz =
    strlen_loop_lem (2 ^ 63) n 0 s h (rw zero-add z) (λ k l. nz k (omega arith))
    ∙ ap some (zero-add n)

-- A text with no zero byte in it.
abbrev pub no_zero : Bytes → Bool
no_zero [] = true
no_zero (c ∷ t) = not (c == 0) && no_zero t

pub strlen-chars :
    (t : Bytes) → no_zero t ≡ true → length t < 2 ^ 63 → strlen (chars t) ≡ some (length t)
strlen-chars t h l = strlen_first (chars t) (length t) l (get_or_end t) (get_or-ne t h)
  where
    get_or_end : (t : Bytes) → get_or t (length t) 0 ≡ 0
    get_or_end [] = refl
    get_or_end (c ∷ t) = get_or_end t

    get_or-ne : (t : Bytes) → no_zero t ≡ true → (k : ℕ) → k < length t → get_or t k 0 ≢ 0
    get_or-ne [] h k l = absurd (omega arith)
    get_or-ne (c ∷ t) h zero l = ground arith
    get_or-ne (c ∷ t) h (suc k) l = get_or-ne t (ground arith) k (omega arith)
