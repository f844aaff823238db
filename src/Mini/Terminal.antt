-- ===== src/Mini/Terminal.antt =====
-- Descriptors that take all that is written to them, and write of hw3/libmini.c on them.
use nctu_unix_programming.Base.{
  ℕ, zero, suc, ◌<◌, ◌^◌, ◌≡◌, refl, ap, ◌∙◌, true, [], ◌∷◌, ◌++◌, length,
}
use mathlib.Core.List.{append_assoc}
use nctu_unix_programming.Base.Text.{Bytes}
use nctu_unix_programming.Monad.{Gives}
use nctu_unix_programming.Numbers.{pos}
use nctu_unix_programming.Mini.Sys
use nctu_unix_programming.Mini.Sys.{Sys, Mini}
use nctu_unix_programming.Mini.Wrappers.{write, wrapper_ret_val}
use nctu_unix_programming.Mini.Text.{chars}
use nctu_unix_programming.Mini.Text.Strlen.{no_zero}

-- The first bytes of a buffer.
abbrev pub first_bytes : ℕ → (ℕ → ℕ) → Bytes
first_bytes zero buf = []
first_bytes (suc n) buf = buf 0 ∷ first_bytes n (λ i. buf (suc i))

pub first_bytes-chars : (t : Bytes) → first_bytes (length t) (chars t) ≡ t
first_bytes-chars [] = refl
first_bytes-chars (c ∷ t) = ap (◌∷◌ c) (first_bytes-chars t)

-- A descriptor that takes all that is written to it.
pub record IsTerminal (S : Sys) (fd : ℕ) : Type 0 where
  pub output : S.World → Bytes
  pub write_all :
      (w : S.World) (buf : ℕ → ℕ) (n : ℕ)
      → n < 2 ^ 63
      → (S.syscall (Sys.write (pos fd) buf (pos n)) w).0 ≡ pos n
  pub output-write :
      (w : S.World) (buf : ℕ → ℕ) (n : ℕ)
      → n < 2 ^ 63
      → output ((S.syscall (Sys.write (pos fd) buf (pos n)) w).1) ≡ output w ++ first_bytes n buf

-- A text that can be printed as a C string.
abbrev pub IsText : Bytes → Type 0
IsText t = (no_zero t ≡ true) × (length t < 2 ^ 63)

module _ (S : Sys) {fd : ℕ} (T : IsTerminal S fd) where
  -- A text was printed, and errno is 0.
  abbrev pub Printed : Bytes → Mini S → Unit {0} → Mini S → Type 0
  Printed t s _ s' = (s'.errno ≡ pos 0) × (T.output s'.world ≡ T.output s.world ++ t)

  pub write-Printed :
      (t : Bytes) (s : Mini S)
      → length t < 2 ^ 63
      → Gives (λ a s'. Printed t s tt s') (write (pos fd) (chars t) (pos (length t)) s)
  unfolding write wrapper_ret_val
  write-Printed t s l =
      rw (T.write_all s.world (chars t) (length t) l, Gives)
        (
          refl,
          T.output-write s.world (chars t) (length t) l
              ∙ ap (◌++◌ (T.output s.world)) (first_bytes-chars t),
        )

  -- One text after another.
  pub Printed-append :
      (a b : Bytes) (s s' s'' : Mini S)
      → Printed a s tt s'
      → Printed b s' tt s''
      → Printed (a ++ b) s tt s''
  Printed-append a b s s' s'' p q =
      (q.0, q.1 ∙ ap (λ (t : Bytes). t ++ b) p.1 ∙ append_assoc (T.output s.world) a b)
