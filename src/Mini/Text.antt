-- ===== src/Mini/Text.antt =====
-- bzero, strlen, sleep and perror of hw3/libmini.c.
pub mod Strlen
pub mod Bzero
pub mod Perror
use nctu_unix_programming.Base.{
  ◌-◌, ℕ, zero, suc, ◌+◌, ◌^◌, Bool, true, false, Option, none, some, List, [], ◌∷◌, ltb, ◌==◌,
  if◌then◌else◌, get_or, get_elem?, String,
}
use nctu_unix_programming.Base.Text.{Bytes, codes}
use nctu_unix_programming.Monad.{pure, halt, undefined, out_of_fuel, get, ◌>>=◌, ◌>>◌}
use nctu_unix_programming.Numbers.{ℤ, pos, negsuc, to_int}
use nctu_unix_programming.Mini.Sys.{Sys, Mini, MiniM}
use nctu_unix_programming.Mini.Wrappers.{write, to_uint}
use mathlib.Core.Option

-- The rounds of the loop, one for each count; `none` if the fuel runs out.
unfoldable pub strlen_loop : ℕ → (ℕ → ℕ) → ℕ → Option ℕ
strlen_loop zero s count = none
strlen_loop (suc fuel) s count =
    let rest = strlen_loop fuel s (suc count) in if s count == 0 then some count else rest

-- `s i` is s[i]. size_t is signed here: a count past 2^63 - 1 overflows, which is undefined.
unfoldable pub strlen : (ℕ → ℕ) → Option ℕ
strlen s = strlen_loop (2 ^ 63) s 0

-- A text in memory, with zeros after it.
abbrev pub chars : Bytes → ℕ → ℕ
chars t i = get_or t i 0

abbrev pub eintr : ℕ
eintr = 4

-- sys_nanosleep has no declaration, so its result is taken as an int. For an error that is not
-- EINTR the function ends without a value.
abbrev sleep_result : ℕ → ℤ → ℕ → ℤ
sleep_result unset (pos n) rem = to_uint (pos n)
sleep_result unset (negsuc n) rem =
    if suc n == eintr then to_uint (pos rem) else to_uint (pos unset)

module _ {S : Sys} where
  -- `while (size-- > 0) *ptr++ = '\0';`
  unfoldable pub bzero_loop : ℕ → ℕ → MiniM S (Unit {0})
  bzero_loop zero ptr s = pure tt s
  bzero_loop (suc size) ptr s =
      bzero_loop size (suc ptr) (record s { world = S.poke s.world ptr 0 })

  -- size_t is signed here; size-- overflows for the least number.
  unfoldable pub bzero : ℕ → ℤ → MiniM S (Unit {0})
  unfolding bzero_loop
  bzero ptr (pos size) = bzero_loop size ptr
  bzero ptr (negsuc n) = if n == 2 ^ 63 - 1 then halt undefined else pure tt

  unfoldable pub sleep : ℕ → MiniM S ℤ
  sleep seconds s =
      (let (ret, rem, w) = S.nanosleep seconds s.world in
        pure (sleep_result S.unset_number (to_int ret) rem) (record s { world = w }))

  -- write(2, t, strlen(t))
  unfoldable pub write_text : (ℕ → ℕ) → MiniM S (Unit {0})
  unfolding strlen write
  write_text t s = elim (strlen t) [
    | none ↦ halt undefined s
    | some n ↦ (do ret ← write (pos 2) t (pos n); pure tt) s
  ]

abbrev pub errmsg : List Bytes
errmsg =
    codes "Success"
    ∷ codes "Operation not permitted"
    ∷ codes "No such file or directory"
    ∷ codes "No such process"
    ∷ codes "Interrupted system call"
    ∷ codes "I/O error"
    ∷ codes "No such device or address"
    ∷ codes "Argument list too long"
    ∷ codes "Exec format error"
    ∷ codes "Bad file number"
    ∷ codes "No child processes"
    ∷ codes "Try again"
    ∷ codes "Out of memory"
    ∷ codes "Permission denied"
    ∷ codes "Bad address"
    ∷ codes "Block device required"
    ∷ codes "Device or resource busy"
    ∷ codes "File exists"
    ∷ codes "Cross-device link"
    ∷ codes "No such device"
    ∷ codes "Not a directory"
    ∷ codes "Is a directory"
    ∷ codes "Invalid argument"
    ∷ codes "File table overflow"
    ∷ codes "Too many open files"
    ∷ codes "Not a typewriter"
    ∷ codes "Text file busy"
    ∷ codes "File too large"
    ∷ codes "No space left on device"
    ∷ codes "Illegal seek"
    ∷ codes "Read-only file system"
    ∷ codes "Too many links"
    ∷ codes "Broken pipe"
    ∷ codes "Math argument out of domain of func"
    ∷ codes "Math result not representable"
    ∷ []

abbrev perrmsg_max : ℕ
perrmsg_max = 34

-- errno < PERRMSG_MIN || errno > PERRMSG_MAX
abbrev pub has_no_message : ℤ → Bool
has_no_message (pos n) = ltb perrmsg_max n
has_no_message (negsuc n) = true

-- errmsg[backup], where the index is one of the array's.
abbrev pub message_of : ℤ → Option Bytes
message_of (pos n) = get_elem? errmsg n
message_of (negsuc n) = none

module _ {S : Sys} where
  -- The prefix and ": ", if the pointer is not null.
  unfoldable pub write_prefix : Option (ℕ → ℕ) → MiniM S (Unit {0})
  unfolding write_text
  write_prefix none = pure tt
  write_prefix (some prefix) = do
    write_text prefix
    ret ← write (pos 2) (chars (codes ": ")) (pos 2)
    pure tt

  -- errno is tested anew, after the writes of the prefix, and then `backup` is the index.
  unfoldable pub write_message : ℤ → MiniM S (Unit {0})
  unfolding write_text
  write_message backup s =
      if has_no_message s.errno
      then write_text (chars (codes "Unknown")) s
      else elim (message_of backup) [ none ↦ halt undefined s | some m ↦ write_text (chars m) s ]

  unfoldable pub perror : Option (ℕ → ℕ) → MiniM S (Unit {0})
  unfolding write_prefix write_message
  perror prefix s =
      (do
        write_prefix prefix
        write_message s.errno
        ret ← write (pos 2) (chars (codes "\n")) (pos 1)
        pure tt)
        s
