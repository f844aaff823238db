-- ===== src/Mini/Sigset/Laws.antt =====
-- sigset_t of hw3/libmini.c against a set of signal numbers.
use nctu_unix_programming.Base.{
  ℕ, zero, suc, ◌/◌, ◌^◌, ◌<◌, ◌≡◌, refl, ap, ◌∙◌, bit_and, Bool, true, false, not, ◌&&◌, ◌||◌, ltb,
  leb, ◌==◌, List, [], ◌∷◌, All, if◌then◌else◌, arith,
}
use nctu_unix_programming.Base.Bits.{digit, digit-bit_and, digit-bit_or}
use nctu_unix_programming.Base.Digits.{
  digit-lt, digit-zero, digit-pow, digit-complement, digit-shift, one-bit_and, bit_or-lt,
  bit_and-lt, pow-lt,
}
use nctu_unix_programming.Monad.{M, pure, ok, stop, undefined, ◌>>=◌, Outcome, Gives, Gives-bind}
use nctu_unix_programming.Numbers.{ℤ, pos, negsuc, to_u64, IsInt}
use nctu_unix_programming.Mini.Sigset.{
  Sigset, nsig, is_signal, all_but, sigemptyset, sigfillset, sigaddset, sigdelset, sigismember,
}

-- Whether signal i + 1 is in a set.
abbrev pub has : Sigset → ℕ → Bool
has s i = digit i s.sig == 1

-- A word of 64 digits.
abbrev pub IsWord : Sigset → Type 0
IsWord s = s.sig < 2 ^ 64

-- The result is 0, and the set after it is a word that has the signals of a test.
abbrev pub Changed : (ℕ → Bool) → ℤ → Sigset → Type 0
Changed test a s = (a ≡ pos 0) × IsWord s × ((i : ℕ) → i < nsig → has s i ≡ test i)

abbrev pub Becomes : (ℕ → Bool) → Outcome Sigset ℤ → Type 0
Becomes test r = Gives (Changed test) r

Becomes-congr :
    (f g : ℕ → Bool) (r : Outcome Sigset ℤ)
    → Becomes f r
    → ((i : ℕ) → i < nsig → f i ≡ g i)
    → Becomes g r
Becomes-congr f g (ok a s) h e = (h.0, h.1, λ i l. h.2 i l ∙ e i l)
Becomes-congr f g (stop x s) h e = elim h [ ]

sigemptyset-Becomes : (s : Sigset) → Becomes (λ i. false) (sigemptyset s)
unfolding sigemptyset
sigemptyset-Becomes s = (refl, omega arith, λ i h. rw (digit-zero i) refl)

sigfillset-Becomes : (s : Sigset) → Becomes (λ i. true) (sigfillset s)
unfolding sigfillset
sigfillset-Becomes s = (
  refl,
  omega arith,
  λ i h. ground (arith, digit-complement 64 i 0 (omega arith) h, digit-zero i),
)

sigaddset-Becomes :
    (k : ℕ) (s : Sigset)
    → k < nsig
    → IsWord s
    → Becomes (λ i. i == k || has s i) (sigaddset (pos (suc k)) s)
unfolding sigaddset
sigaddset-Becomes k s h w =
    rw (in_range, Gives)
      (
        refl,
        bit_or-lt 64 s.sig (2 ^ k) w (pow-lt k 64 h),
        λ i l. ground (arith, digit-bit_or i s.sig (2 ^ k), digit-pow i k, digit-lt i s.sig),
      )
  where
    in_range : (leb 1 (suc k) && leb (suc k) nsig) ≡ true
    in_range = ground arith

sigdelset-Becomes :
    (k : ℕ) (s : Sigset)
    → k < nsig
    → IsWord s
    → Becomes (λ i. not (i == k) && has s i) (sigdelset (pos (suc k)) s)
unfolding sigdelset
sigdelset-Becomes k s h w =
    rw (in_range, Gives)
      (
        refl,
        bit_and-lt 64 s.sig (all_but k) w,
        λ i l. ground (
          arith,
          digit-bit_and i s.sig (all_but k),
          digit-complement 64 i (2 ^ k) (pow-lt k 64 h) l,
          digit-pow i k,
          digit-lt i s.sig,
        ),
      )
  where
    in_range : ltb k 64 ≡ true
    in_range = ground arith

-- The digit that sigismember takes.
pub bit_and-has : (k : ℕ) (s : Sigset) → bit_and 1 (s.sig / 2 ^ k) ≡ (if has s k then 1 else 0)
bit_and-has k s = ground (arith, one-bit_and (s.sig / 2 ^ k), digit-shift k s.sig, digit-lt k s.sig)

pub sigismember-has :
    (k : ℕ) (s : Sigset)
    → k < nsig
    → sigismember (pos (suc k)) s ≡ ok (pos (if has s k then 1 else 0)) s
unfolding sigismember
sigismember-has k s h = rw in_range (ap (λ (n : ℕ). ok (pos n) s) (bit_and-has k s))
  where
    in_range : ltb k 64 ≡ true
    in_range = ground arith

-- The operations that change a set, for signal k + 1.
pub data Change : Type 0 where
  clear fill : Change
  add remove : ℕ → Change

abbrev pub Valid : Change → Type 0
Valid clear = Unit
Valid fill = Unit
Valid (add k) = k < nsig
Valid (remove k) = k < nsig

-- The call of the library.
abbrev pub call_of : Change → M Sigset ℤ
call_of clear = sigemptyset
call_of fill = sigfillset
call_of (add k) = sigaddset (pos (suc k))
call_of (remove k) = sigdelset (pos (suc k))

-- What it does to a set of signals, given by a test.
abbrev pub effect : Change → (ℕ → Bool) → ℕ → Bool
effect clear test i = false
effect fill test i = true
effect (add k) test i = i == k || test i
effect (remove k) test i = not (i == k) && test i

abbrev pub calls_of : List Change → M Sigset ℤ
calls_of [] = pure (pos 0)
calls_of (c ∷ cs) = call_of c >>= λ _. calls_of cs

abbrev pub effects : List Change → (ℕ → Bool) → ℕ → Bool
effects [] test = test
effects (c ∷ cs) test = effects cs (effect c test)

call-Becomes :
    (c : Change) (s : Sigset) → Valid c → IsWord s → Becomes (effect c (has s)) (call_of c s)
call-Becomes clear s v w = sigemptyset-Becomes s
call-Becomes fill s v w = sigfillset-Becomes s
call-Becomes (add k) s v w = sigaddset-Becomes k s v w
call-Becomes (remove k) s v w = sigdelset-Becomes k s v w

-- The effect depends on the signals 1 to 64 only.
effects_congr :
    (cs : List Change) (f g : ℕ → Bool)
    → ((i : ℕ) → i < nsig → f i ≡ g i)
    → (i : ℕ) → i < nsig
    → effects cs f i ≡ effects cs g i
effects_congr [] f g h i l = h i l
effects_congr (c ∷ cs) f g h i l =
    effects_congr cs (effect c f) (effect c g) (λ j m. step c j m) i l
  where
    step : (c : Change) (j : ℕ) → j < nsig → effect c f j ≡ effect c g j
    step clear j m = refl
    step fill j m = refl
    step (add k) j m = ap (λ (b : Bool). j == k || b) (h j m)
    step (remove k) j m = ap (λ (b : Bool). not (j == k) && b) (h j m)

-- Any sequence of sigemptyset, sigfillset, and sigaddset and sigdelset of signals 1 to 64, on a word of
-- 64 digits, returns 0 and leaves a word of 64 digits whose signals are those that the sequence leaves
-- in a set of signals.
pub calls-Becomes :
    (cs : List Change) (s : Sigset)
    → All Valid cs
    → IsWord s
    → Becomes (effects cs (has s)) (calls_of cs s)
calls-Becomes [] s v w = (refl, w, λ i l. refl)
calls-Becomes (c ∷ cs) s v w =
    Gives-bind (Changed (effect c (has s))) _ (call_of c s) (λ _. calls_of cs)
      (call-Becomes c s v.0 w)
      λ a s' h.
        Becomes-congr (effects cs (has s')) (effects (c ∷ cs) (has s)) (calls_of cs s')
          (calls-Becomes cs s' v.1 h.1) (effects_congr cs (has s') (effect c (has s)) h.2)

-- After any sequence of sigemptyset, sigfillset, and sigaddset and sigdelset of signals 1 to 64, on a
-- word of 64 digits, sigismember of a signal from 1 to 64 tells whether that signal is in the set of
-- signals that the sequence leaves.
pub sigismember-calls :
    (cs : List Change) (k : ℕ) (s : Sigset)
    → All Valid cs
    → IsWord s
    → k < nsig
    → Gives
        (λ a s'. a ≡ pos (if effects cs (has s) k then 1 else 0))
        ((calls_of cs >>= λ _. sigismember (pos (suc k))) s)
sigismember-calls cs k s v w l =
    Gives-bind (Changed (effects cs (has s))) _ (calls_of cs s) (λ _. sigismember (pos (suc k)))
      (calls-Becomes cs s v w) λ a s' h. rw (sigismember-has k s' l, h.2 k l, Gives) refl

-- A number outside 1 to 64.
abbrev IsOutside : ℤ → Type 0
IsOutside (pos zero) = Unit
IsOutside (pos (suc n)) = 64 < suc n
IsOutside (negsuc n) = Unit

-- A signal number outside 1 to 64, in the range of an int: sigaddset returns -EINVAL and leaves the set
-- alone, and sigdelset and sigismember shift by too many digits, which is undefined.
pub out_of_range :
    (signo : ℤ) (s : Sigset)
    → IsOutside signo
    → IsInt signo
    → (sigaddset signo s ≡ ok (negsuc 21) s)
      × (sigdelset signo s ≡ stop undefined s)
      × (sigismember signo s ≡ stop undefined s)
unfolding sigaddset sigdelset sigismember
out_of_range (pos zero) s h n = (refl, refl, refl)
out_of_range (pos (suc k)) s h n =
    let outside : is_signal (pos (suc k)) ≡ false = ground arith in
    let above : ltb k 64 ≡ false = ground arith in (rw outside refl, rw above refl, rw above refl)
out_of_range (negsuc k) s h n =
    let above : ltb (to_u64 (negsuc (suc k))) 64 ≡ false = ground arith in
    (refl, rw above refl, rw above refl)
