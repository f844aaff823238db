-- ===== src/Mini/Samples/Jumps.antt =====
-- jmp1.c against the lines that it is to print.
use nctu_unix_programming.Base.{
  ℕ, zero, suc, ◌+◌, ◌<◌, ◌≡◌, refl, ap, ◌∙◌, true, false, [], ◌++◌, ltb, ◌==◌, if◌then◌else◌,
  length, arith,
}
use mathlib.Core.List.{append_assoc, append-nil}
use nctu_unix_programming.Base.Text.{Bytes}
use nctu_unix_programming.Monad.{Gives, Gives-bind, Gives-weaken}
use nctu_unix_programming.Numbers.{ℤ, pos}
use nctu_unix_programming.Mini.Sys.{Sys, Mini}
use nctu_unix_programming.Mini.Wrappers.{write}
use nctu_unix_programming.Mini.Text.{chars}
use nctu_unix_programming.Mini.Text.Strlen.{no_zero, strlen-chars}
use nctu_unix_programming.Mini.Terminal.{IsTerminal, Printed, write-Printed}
use nctu_unix_programming.Mini.Samples.{function_text, function, jmp1_from, jmp1}

-- The lines of n functions from function i on.
abbrev pub function_texts : ℕ → ℕ → Bytes
function_texts zero i = []
function_texts (suc n) i = function_text i ++ function_texts n (suc i)

function_text-no_zero : (i : ℕ) → no_zero (function_text i) ≡ true
function_text-no_zero i = ground arith

module _ (S : Sys) (T : IsTerminal S 1) where
  function-Printed : (i : ℕ) (s : Mini S) → Gives (Printed S T (function_text i) s) (function i s)
  unfolding function
  function-Printed i s =
      rw (strlen-chars (function_text i) (function_text-no_zero i) (omega arith), Gives)
        (Gives-bind (λ a s'. Printed S T (function_text i) s tt s')
          (Printed S T (function_text i) s)
          (write (pos 1) (chars (function_text i)) (pos (length (function_text i))) s) _
          (write-Printed S T (function_text i) s (omega arith)) λ a s' p. p)

  -- The value is 0, and a text was printed.
  abbrev Ended : Bytes → Mini S → ℤ → Mini S → Type 0
  Ended t s a s' = (a ≡ pos 0) × (T.output s'.world ≡ T.output s.world ++ t)

  -- n functions are left when setjmp returns.
  jmp1_from-Ended :
      (fuel n val i next : ℕ) (s : Mini S)
      → n < fuel
      → (if val == 0 then i else suc i) ≡ next
      → next + n ≡ 10
      → Gives (Ended (function_texts n next) s) (jmp1_from fuel val i s)
  unfolding jmp1_from
  jmp1_from-Ended zero n val i next s f e h = absurd (omega arith)
  jmp1_from-Ended (suc fuel) zero val i next s f e h =
      rw (e, last, Gives) (refl, rw append-nil refl)
    where
      last : ltb next 10 ≡ false
      last = ground arith
  jmp1_from-Ended (suc fuel) (suc n) val i next s f e h =
      rw (e, more, Gives)
        (Gives-bind (Printed S T (function_text next) s) _ (function next s)
          (λ _. jmp1_from fuel (suc next) next) (function-Printed next s)
          λ _ s1 p.
            Gives-weaken (Ended (function_texts n (suc next)) s1) _
              (jmp1_from fuel (suc next) next s1)
              (jmp1_from-Ended fuel n (suc next) next (suc next) s1 (omega arith) (ground arith)
                (omega arith))
              λ a s2 q. (
                q.0,
                q.1
                    ∙ ap (λ (t : Bytes). t ++ function_texts n (suc next)) p.1
                    ∙ append_assoc (T.output s.world) (function_text next)
                        (function_texts n (suc next)),
              ))
    where
      more : ltb next 10 ≡ true
      more = ground arith

  -- jmp1.c prints the lines of the functions a to j in their order, each once, and main returns 0.
  pub jmp1_prints :
      (s : Mini S)
      → Gives
          (λ a s'. (a ≡ pos 0) × (T.output s'.world ≡ T.output s.world ++ function_texts 10 0))
          (jmp1 s)
  unfolding jmp1
  jmp1_prints s = jmp1_from-Ended 11 10 0 0 0 s (omega arith) refl refl
