-- ===== src/Tests/Library.antt =====
-- Examples of the theorems on the library of hw3.
use nctu_unix_programming.Base.{
  ℕ, ◌+◌, ◌-◌, ◌^◌, ◌≡◌, refl, bit_and, bit_or, ◌&&◌, leb, ltb, none, some, List, [], ◌∷◌, ◌++◌,
  if◌then◌else◌, arith,
}
use nctu_unix_programming.Base.Text.{codes}
use nctu_unix_programming.Monad.{ok, stop, undefined, exited, final, Gives, Stops, ◌>>=◌}
use nctu_unix_programming.Numbers.{ℤ, pos, negsuc}
use nctu_unix_programming.Mini.Sigset.{sigaddset, sigdelset, sigismember}
use nctu_unix_programming.Mini.Sigset.Laws.{
  Change, fill, add, remove, calls_of, effects, has, sigismember-calls, out_of_range,
}
use nctu_unix_programming.Mini.Sys
use nctu_unix_programming.Mini.Sys.{Sys, Mini}
use nctu_unix_programming.Mini.Wrappers.{wrapped}
use nctu_unix_programming.Mini.Wrappers.Contract.{wrapped-Fits}
use nctu_unix_programming.Mini.Text.{chars, strlen, bzero, perror}
use nctu_unix_programming.Mini.Text.Strlen.{strlen_first}
use nctu_unix_programming.Mini.Text.Bzero.{bzero-peek}
use nctu_unix_programming.Mini.Text.Perror.{perror_null, perror_known, perror_overrun}
use nctu_unix_programming.Mini.Terminal.{Printed}
use nctu_unix_programming.Mini.Signals.{sigaction}
use nctu_unix_programming.Mini.Signals.Laws.{blockable, sigaction_blocks}
use nctu_unix_programming.Mini.Samples.{alarm2, alarm3, jmp1, start, pending_text}
use nctu_unix_programming.Mini.Samples.Laws.{alarm2_pending, alarm3_undefined}
use nctu_unix_programming.Mini.Samples.Jumps.{function_texts, jmp1_prints}
use nctu_unix_programming.Tests.Mini.{
  small, small-IsMemory, small_out-IsTerminal, small_err-IsTerminal, small-IsSignals, small-IsTimer,
  small-IsQuiet,
}

-- A process that has just begun, with SIGUSR1 blocked.
abbrev begun : Mini small
begun = record {
  errno = pos 0;
  world = record {
    bytes = λ a. 9;
    out = [];
    err = [];
    blocked = 2 ^ 9;
    alarm_due = none;
    waiting = record { sig = 0 };
    actions = λ k. small.unset_action;
  };
}

abbrev failing : ℤ → Mini small
failing e = record begun { errno = e }

abbrev changes : List Change
changes = fill ∷ remove 13 ∷ add 1 ∷ remove 63 ∷ []

sigismember-calls_example :
    Gives
      (λ a s'. a ≡ pos (if effects changes (has (record { sig = 5 })) 13 then 1 else 0))
      ((calls_of changes >>= λ _. sigismember (pos 14)) (record { sig = 5 }))
sigismember-calls_example =
    sigismember-calls changes 13 (record { sig = 5 })
      (tt, (omega arith, (omega arith, (omega arith, tt)))) (omega arith) (omega arith)

out_of_range_example :
    (sigaddset (pos 65) (record { sig = 5 }) ≡ ok (negsuc 21) (record { sig = 5 }))
    × (sigdelset (pos 65) (record { sig = 5 }) ≡ stop undefined (record { sig = 5 }))
    × (sigismember (pos 65) (record { sig = 5 }) ≡ stop undefined (record { sig = 5 }))
out_of_range_example = out_of_range (pos 65) (record { sig = 5 }) (omega arith) (omega arith)

wrapped-Fits_example : wrapped (Sys.umask (pos 0)) (failing (pos 4)) ≡ ok (pos 18) begun
wrapped-Fits_example = wrapped-Fits (Sys.umask (pos 0)) (failing (pos 4)) (omega arith)

strlen_first_example : strlen (λ i. 3 - i) ≡ some 3
strlen_first_example = strlen_first (λ i. 3 - i) 3 (omega arith) refl (λ k h. omega (arith, h))

bzero-peek_example :
    Gives
      (λ _ s'.
        (s'.errno ≡ pos 0)
        × ((b : ℕ) → s'.world.bytes b ≡ (if leb 16 b && ltb b (16 + 4) then 0 else 9)))
      (bzero 16 (pos 4) begun)
bzero-peek_example = bzero-peek small small-IsMemory 16 (pos 4) begun (λ h. cc) (omega arith)

perror_null_example :
    Gives
      (Printed small small_err-IsTerminal (codes "Unknown" ++ codes "\n") (failing (pos 38)))
      (perror none (failing (pos 38)))
perror_null_example = perror_null small small_err-IsTerminal (failing (pos 38))

perror_known_example :
    Gives
      (Printed small small_err-IsTerminal
        ((codes "open" ++ codes ": ") ++ (codes "No such file or directory" ++ codes "\n"))
        (failing (pos 2)))
      (perror (some (chars (codes "open"))) (failing (pos 2)))
perror_known_example =
    perror_known small small_err-IsTerminal (codes "open") (codes "No such file or directory")
      (failing (pos 2)) (refl, omega arith) refl

perror_overrun_example : Stops undefined (perror (some (chars (codes "pipe"))) (failing (pos 38)))
perror_overrun_example =
    perror_overrun small small_err-IsTerminal (codes "pipe") (failing (pos 38)) (refl, omega arith)
      refl

sigaction_blocks_example :
    Stops undefined (sigaction (pos 14) (some small.unset_action) begun)
    × (let w' = (final (sigaction (pos 14) (some small.unset_action) begun)).world in
        (w'.blocked ≡ bit_and (bit_or (2 ^ 9) 4) blockable)
        × (((w'.actions 14).sa_mask).sig ≡ 2 ^ 9))
unfolding small-IsSignals
sigaction_blocks_example =
    sigaction_blocks small small-IsSignals (pos 14) small.unset_action begun (λ a w. refl)

alarm2_pending_example :
    Stops (exited (pos 0)) (start alarm2 begun)
    × ((final (start alarm2 begun)).world.out ≡ pending_text)
unfolding small_out-IsTerminal
alarm2_pending_example =
    alarm2_pending small small-IsSignals small_out-IsTerminal small-IsTimer begun

alarm3_undefined_example :
    Stops undefined (alarm3 4096 begun)
    × (let w' = (final (alarm3 4096 begun)).world in
        ((w'.actions 14).sa_handler ≡ 1)
        × (w'.actions 2 ≡ small.unset_action)
        × (w'.alarm_due ≡ none))
unfolding small-IsSignals small-IsQuiet
alarm3_undefined_example =
    alarm3_undefined small small-IsSignals small-IsQuiet (λ a w. refl) 4096 begun

jmp1_prints_example :
    Gives (λ a s'. (a ≡ pos 0) × (s'.world.out ≡ function_texts 10 0)) (jmp1 begun)
unfolding small_out-IsTerminal
jmp1_prints_example = jmp1_prints small small_out-IsTerminal begun
