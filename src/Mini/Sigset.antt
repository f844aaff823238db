-- ===== src/Mini/Sigset.antt =====
-- The functions on sigset_t of hw3/libmini.c. A set is one word; each function is given the set that
-- its pointer points to.
pub mod Laws
use nctu_unix_programming.Base.{
  ℕ, zero, suc, ◌-◌, ◌/◌, ◌^◌, bit_and, bit_or, Bool, false, ◌&&◌, ltb, leb, if◌then◌else◌,
}
use nctu_unix_programming.Monad.{M, pure, halt, undefined}
use nctu_unix_programming.Numbers.{ℤ, pos, negsuc, to_u64}

pub record Sigset : Type 0 where
  -- sig[0]
  pub sig : ℕ

abbrev pub nsig : ℕ
nsig = 64

abbrev pub einval : ℕ
einval = 22

-- (unsigned long) (signo - 1)
abbrev pub shift_of : ℤ → ℕ
shift_of (pos zero) = to_u64 (negsuc 0)
shift_of (pos (suc n)) = n
shift_of (negsuc n) = to_u64 (negsuc (suc n))

-- ~(1UL << k)
abbrev pub all_but : ℕ → ℕ
all_but k = 2 ^ 64 - 1 - 2 ^ k

unfoldable pub sigemptyset : M Sigset ℤ
sigemptyset set = pure (pos 0) (record set { sig = 0 })

unfoldable pub sigfillset : M Sigset ℤ
sigfillset set = pure (pos 0) (record set { sig = 2 ^ 64 - 1 })

abbrev pub is_signal : ℤ → Bool
is_signal (pos n) = leb 1 n && leb n nsig
is_signal (negsuc n) = false

-- The error is returned as -EINVAL itself.
unfoldable pub sigaddset : ℤ → M Sigset ℤ
sigaddset signo set =
    if is_signal signo
    then pure (pos 0) (record set { sig = bit_or set.sig (2 ^ shift_of signo) })
    else pure (negsuc (einval - 1)) set

-- There is no test of signo: a shift by 64 digits or more is undefined.
unfoldable pub sigdelset : ℤ → M Sigset ℤ
sigdelset signo set =
    if ltb (shift_of signo) 64
    then pure (pos 0) (record set { sig = bit_and set.sig (all_but (shift_of signo)) })
    else halt undefined set

unfoldable pub sigismember : ℤ → M Sigset ℤ
sigismember signo set =
    if ltb (shift_of signo) 64
    then pure (pos (bit_and 1 (set.sig / 2 ^ shift_of signo))) set
    else halt undefined set
