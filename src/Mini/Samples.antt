-- ===== src/Mini/Samples.antt =====
-- The sample programs of hw3: alarm1.c, alarm2.c, alarm3.c, jmp1.c, and start.asm, which runs them.
pub mod Laws
pub mod Jumps
use nctu_unix_programming.Base.{
  ℕ, zero, suc, ◌+◌, Bool, true, false, Option, none, some, List, [], ◌∷◌, ◌++◌, ltb, ◌==◌,
  if◌then◌else◌, length,
}
use nctu_unix_programming.Base.Text.{Bytes, codes}
use nctu_unix_programming.Monad.{
  pure, halt, undefined, out_of_fuel, Outcome, ok, stop, ◌>>=◌, ◌>>◌, when,
}
use nctu_unix_programming.Numbers.{ℤ, pos, negsuc}
use nctu_unix_programming.Mini.Sigset.{Sigset, sigemptyset, sigaddset, sigismember}
use nctu_unix_programming.Mini.Sys.{Sys, Mini, MiniM}
use nctu_unix_programming.Mini.Wrappers.{write, pause, alarm, exit}
use nctu_unix_programming.Mini.Text.{chars, strlen, sleep, perror}
use nctu_unix_programming.Mini.Signals.{sigprocmask, sigpending, signal, stored_or}

abbrev pub sigint : ℤ
sigint = pos 2

abbrev pub sigalrm : ℤ
sigalrm = pos 14

-- SIG_IGN
abbrev pub sig_ign : ℕ
sig_ign = 1

-- The arrays m, which end in a zero byte.
abbrev pub pending_text : Bytes
pending_text = codes "sigalrm is pending.\n" ++ (0 ∷ [])

abbrev pub not_pending_text : Bytes
not_pending_text = codes "sigalrm is not pending.\n" ++ (0 ∷ [])

abbrev is_negative : ℤ → Bool
is_negative (pos n) = false
is_negative (negsuc n) = true

abbrev is_null : ℤ → Bool
is_null (pos n) = n == 0
is_null (negsuc n) = false

-- The line of one of the functions a to j.
abbrev pub function_text : ℕ → Bytes
function_text i = codes "This is function " ++ ((b'a' + i) ∷ codes "().\n")

module _ {S : Sys} where
  -- A function on a set that is a variable.
  abbrev pub on_set : (Sigset → Outcome Sigset ℤ) → Sigset → MiniM S (ℤ × Sigset)
  on_set f set s = elim (f set) [ ok a set' ↦ ok (a, set') s | stop x set' ↦ stop x s ]

  -- The set with SIGALRM only, which is blocked.
  unfoldable pub block_alarm : MiniM S Sigset
  unfolding sigemptyset sigaddset sigprocmask
  block_alarm = do
    (r, empty) ← on_set sigemptyset (record { sig = S.unset_number })
    (t, set) ← on_set (sigaddset sigalrm) empty
    blocked ← sigprocmask (pos 0) (some set)
    pure set

  -- What alarm2.c and alarm3.c do at their end.
  unfoldable pub report_pending : Sigset → MiniM S ℤ
  unfolding sigpending perror sigismember write
  report_pending set = do
    (value, got) ← sigpending
    when (is_negative value) (perror (some (chars (codes "sigpending"))))
    (member, set') ← on_set (sigismember sigalrm) (stored_or got set)
    n ←
        if is_null member
        then write (pos 1) (chars not_pending_text) (pos (length not_pending_text))
        else write (pos 1) (chars pending_text) (pos (length pending_text))
    pure (pos 0)

  unfoldable pub alarm1 : MiniM S ℤ
  unfolding alarm pause
  alarm1 = do left ← alarm 3; value ← pause; pure (pos 0)

  unfoldable pub alarm2 : MiniM S ℤ
  unfolding block_alarm alarm sleep report_pending
  alarm2 = do set ← block_alarm; left ← alarm 3; rest ← sleep 5; report_pending set

  -- `handler` is the address of a function that does nothing.
  unfoldable pub alarm3 : ℕ → MiniM S ℤ
  unfolding block_alarm signal alarm pause report_pending
  alarm3 handler = do
    set ← block_alarm
    old ← signal sigalrm sig_ign
    old ← signal sigint handler
    left ← alarm 1
    value ← pause
    report_pending set

  -- One of the functions a to j, up to its longjmp.
  unfoldable pub function : ℕ → MiniM S (Unit {0})
  unfolding strlen write
  function i s = elim (strlen (chars (function_text i))) [
    | none ↦ halt undefined s
    | some n ↦ (do ret ← write (pos 1) (chars (function_text i)) (pos n); pure tt) s
  ]

  -- main of jmp1.c from a return of setjmp on, with its value; the longjmp of a function goes back
  -- to there. The fuel is a bound on the returns of setjmp.
  unfoldable pub jmp1_from : ℕ → ℕ → ℕ → MiniM S ℤ
  unfolding function
  jmp1_from zero val i = halt out_of_fuel
  jmp1_from (suc fuel) val i =
      let next = if val == 0 then i else suc i in
      let rest = jmp1_from fuel (suc next) next in
      if ltb next 10 then function next >> rest else pure (pos 0)

  unfoldable pub jmp1 : MiniM S ℤ
  unfolding jmp1_from
  jmp1 = jmp1_from 11 0 0

  -- _start: the value of main is the status of the process.
  unfoldable pub start : MiniM S ℤ → MiniM S (Unit {0})
  unfolding exit
  start main = do code ← main; exit code
