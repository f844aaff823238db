-- ===== src/Mini/Text/Perror.antt =====
-- perror of hw3/libmini.c against the line that it is to print.
use nctu_unix_programming.Base.{
  ℕ, zero, suc, ◌<◌, ◌≤◌, ◌≡◌, refl, ap, Bool, true, false, ◌&&◌, ltb, none, some, List, [], ◌∷◌,
  ◌++◌, length, get_elem?, arith, Option-cases, inl, inr,
}
use nctu_unix_programming.Base.Text.{Bytes, codes}
use nctu_unix_programming.Monad.{
  pure, ◌>>=◌, ◌>>◌, undefined, Gives, Gives-bind, Gives-weaken, Stops, Stops-bind, Stops-then,
}
use nctu_unix_programming.Numbers.{ℤ, pos, negsuc}
use nctu_unix_programming.Mini.Sys.{Sys, Mini}
use nctu_unix_programming.Mini.Wrappers.{write}
use nctu_unix_programming.Mini.Text.{
  chars, write_text, errmsg, has_no_message, message_of, write_prefix, write_message, perror,
}
use nctu_unix_programming.Mini.Text.Strlen.{no_zero, strlen-chars}
use nctu_unix_programming.Mini.Terminal.{IsTerminal, IsText, Printed, write-Printed, Printed-append}

abbrev all_texts : List Bytes → Bool
all_texts [] = true
all_texts (t ∷ ts) = (no_zero t && ltb (length t) 100) && all_texts ts

all_texts-get_elem? :
    (ts : List Bytes) (i : ℕ) (t : Bytes) → all_texts ts ≡ true → get_elem? ts i ≡ some t → IsText t
all_texts-get_elem? [] i t h e = cc
all_texts-get_elem? (x ∷ ts) zero t h e = ground arith
all_texts-get_elem? (x ∷ ts) (suc i) t h e = all_texts-get_elem? ts i t (ground arith) e

message-IsText : (e : ℤ) (m : Bytes) → message_of e ≡ some m → IsText m
message-IsText (pos n) m h = all_texts-get_elem? errmsg n m refl h
message-IsText (negsuc n) m h = cc

get_elem?-lt : {A : Type 0} (xs : List A) (i : ℕ) (x : A) → get_elem? xs i ≡ some x → i < length xs
get_elem?-lt [] i x h = cc
get_elem?-lt (y ∷ xs) zero x h = omega arith
get_elem?-lt (y ∷ xs) (suc i) x h = omega (arith, get_elem?-lt xs i x h)

get_elem?_past : {A : Type 0} (xs : List A) (i : ℕ) → get_elem? xs i ≡ none → length xs ≤ i
get_elem?_past [] i h = omega arith
get_elem?_past (y ∷ xs) zero h = cc
get_elem?_past (y ∷ xs) (suc i) h = omega (arith, get_elem?_past xs i h)

-- The test of errno finds a message where the table has one.
message-known : (e : ℤ) (m : Bytes) → message_of e ≡ some m → has_no_message e ≡ false
message-known (pos n) m h = ground (arith, get_elem?-lt errmsg n m h)
message-known (negsuc n) m h = cc

message-unknown : (e : ℤ) → message_of e ≡ none → has_no_message e ≡ true
message-unknown (pos n) h = ground (arith, get_elem?_past errmsg n h)
message-unknown (negsuc n) h = refl

module _ (S : Sys) (T : IsTerminal S 2) where
  write_text-Printed :
      (t : Bytes) (s : Mini S) → IsText t → Gives (Printed S T t s) (write_text (chars t) s)
  unfolding write_text
  write_text-Printed t s h =
      rw (strlen-chars t h.0 (omega (arith, h.1)), Gives, write_text)
        (Gives-bind (λ a s'. Printed S T t s tt s') (Printed S T t s)
          (write (pos 2) (chars t) (pos (length t)) s) _ (write-Printed S T t s h.1) λ a s' p. p)

  prefix-Printed :
      (p : Bytes) (s : Mini S)
      → IsText p
      → Gives (Printed S T (p ++ codes ": ") s) (write_prefix (some (chars p)) s)
  unfolding write_prefix
  prefix-Printed p s h =
      Gives-bind (Printed S T p s) _ (write_text (chars p) s) _ (write_text-Printed p s h)
        λ _ s1 p1.
          Gives-bind (λ a s2. Printed S T (codes ": ") s1 tt s2) _
            (write (pos 2) (chars (codes ": ")) (pos 2) s1) _
            (write-Printed S T (codes ": ") s1 (omega arith))
            λ a s2 p2. Printed-append S T p (codes ": ") s s1 s2 p1 p2

  newline-Printed :
      (s : Mini S)
      → Gives
          (λ a s'. Printed S T (codes "\n") s tt s')
          (write (pos 2) (chars (codes "\n")) (pos 1) s)
  newline-Printed s = write-Printed S T (codes "\n") s (omega arith)

  message-Printed :
      (e : ℤ) (m : Bytes) (s : Mini S)
      → message_of e ≡ some m
      → has_no_message s.errno ≡ false
      → Gives (Printed S T m s) (write_message e s)
  unfolding write_message
  message-Printed e m s h k =
      rw (k, h, Gives, write_message) (write_text-Printed m s (message-IsText e m h))

  unknown-Printed :
      (s : Mini S)
      → has_no_message s.errno ≡ true
      → Gives (Printed S T (codes "Unknown") s) (write_message s.errno s)
  unfolding write_message
  unknown-Printed s k =
      rw (k, Gives, write_message) (write_text-Printed (codes "Unknown") s (refl, omega arith))

  -- A message, and the end of the line.
  rest-Printed :
      (e : ℤ) (m : Bytes) (s : Mini S)
      → Gives (Printed S T m s) (write_message e s)
      → Gives
          (Printed S T (m ++ codes "\n") s)
          ((write_message e >> (write (pos 2) (chars (codes "\n")) (pos 1) >>= λ ret. pure tt)) s)
  rest-Printed e m s h = Gives-bind (Printed S T m s) _ (write_message e s) _ h λ _ s1 p1.
      Gives-bind (λ a s2. Printed S T (codes "\n") s1 tt s2) _
        (write (pos 2) (chars (codes "\n")) (pos 1) s1) _ (newline-Printed s1)
        λ a s2 p2. Printed-append S T m (codes "\n") s s1 s2 p1 p2

  -- With a null prefix, perror prints the message of errno, or Unknown where there is none, and a
  -- newline.
  pub perror_null :
      (s : Mini S)
      → Gives
          (Printed S T
            ((elim (message_of s.errno) [ none ↦ codes "Unknown" | some m ↦ m ]) ++ codes "\n")
            s)
          (perror none s)
  unfolding perror write_prefix
  perror_null s = elim (Option-cases (message_of s.errno)) [
    | inl e ↦
        rw e
          (rest-Printed s.errno (codes "Unknown") s (unknown-Printed s (message-unknown s.errno e)))
    | inr (m, e) ↦
        rw e (rest-Printed s.errno m s (message-Printed s.errno m s e (message-known s.errno m e)))
  ]

  -- With a prefix, perror prints it, a colon, and the message of errno, if errno has one.
  pub perror_known :
      (p m : Bytes) (s : Mini S)
      → IsText p
      → message_of s.errno ≡ some m
      → Gives (Printed S T ((p ++ codes ": ") ++ (m ++ codes "\n")) s) (perror (some (chars p)) s)
  unfolding perror
  perror_known p m s t h =
      Gives-bind (Printed S T (p ++ codes ": ") s) _ (write_prefix (some (chars p)) s) _
        (prefix-Printed p s t)
        λ _ s1 p1.
          Gives-weaken (Printed S T (m ++ codes "\n") s1) _
            ((write_message s.errno
                >> (write (pos 2) (chars (codes "\n")) (pos 1) >>= λ ret. pure tt))
              s1)
            (rest-Printed s.errno m s1 (message-Printed s.errno m s1 h (ap has_no_message p1.0)))
            λ _ s2 p2. Printed-append S T (p ++ codes ": ") (m ++ codes "\n") s s1 s2 p1 p2

  -- With a prefix and an errno without a message, perror reads past its table: writing the prefix has
  -- set errno to 0 before it is tested.
  pub perror_overrun :
      (p : Bytes) (s : Mini S)
      → IsText p
      → message_of s.errno ≡ none
      → Stops undefined (perror (some (chars p)) s)
  unfolding perror write_message
  perror_overrun p s t h =
      Stops-bind (Printed S T (p ++ codes ": ") s) undefined (write_prefix (some (chars p)) s) _
        (prefix-Printed p s t)
        λ _ s1 p1.
          Stops-then undefined (write_message s.errno s1) _
            (rw (ap has_no_message p1.0, h, write_message, Stops) refl)
