-- ===== src/Monad.antt =====
-- Programs that pass a state on, or end the process. `ok` is a normal return; `stop` is an exit,
-- an abort, or a point past which C++ defines no behaviour.
use nctu_unix_programming.Base.{Bool, true, false, ◌≡◌}
use nctu_unix_programming.Numbers.{ℤ}

pub data Exit : Type 0 where
  -- `exit(0)`; `exit(-1)`; an uncaught exception; a failed `assert`; undefined behaviour.
  success failure uncaught assertion undefined : Exit
  -- The fuel of a loop ran out: no behaviour of the program.
  out_of_fuel : Exit
  -- The exit system call, with its status.
  exited : ℤ → Exit

pub data Outcome (S : Type 0) (A : Type 0) : Type 0 where
  ok : A → S → Outcome S A
  stop : Exit → S → Outcome S A

abbrev pub M : Type 0 → Type 0 → Type 0
M S A = S → Outcome S A

abbrev pub pure : {S A : Type 0} → A → M S A
pure a s = ok a s

infixl 5 ◌>>=◌ ◌>>◌
abbrev pub ◌>>=◌ : {S A B : Type 0} → M S A → (A → M S B) → M S B
◌>>=◌ m f s = elim (m s) [ ok a s' ↦ f a s' | stop e s' ↦ stop e s' ]

abbrev pub ◌>>◌ : {S B : Type 0} → M S (Unit {0}) → M S B → M S B
m >> k = m >>= λ _. k

abbrev pub get : {S : Type 0} → M S S
get s = ok s s

abbrev pub modify : {S : Type 0} → (S → S) → M S (Unit {0})
modify f s = ok tt (f s)

abbrev pub halt : {S A : Type 0} → Exit → M S A
halt e s = stop e s

abbrev pub when : {S : Type 0} → Bool → M S (Unit {0}) → M S (Unit {0})
when true m = m
when false m = pure tt

-- The state in which a program leaves.
abbrev pub final : {S A : Type 0} → Outcome S A → S
final (ok a s) = s
final (stop e s) = s

-- A run returns, with a result and a state that have a property, or ends in exit(-1).
abbrev pub Returns : {S A : Type 0} → (A → S → Type 0) → Outcome S A → Type 0
Returns Q (ok a s) = Q a s
Returns Q (stop e s) = e ≡ failure

pub Returns-bind :
    {S A B : Type 0} (P : A → S → Type 0) (Q : B → S → Type 0) (r : Outcome S A) (f : A → M S B)
    → Returns P r
    → ((a : A) (s : S) → P a s → Returns Q (f a s))
    → Returns Q (elim r [ ok a s ↦ f a s | stop e s ↦ stop e s ])
Returns-bind P Q (ok a s) f h k = k a s h
Returns-bind P Q (stop e s) f h k = h

pub Returns-weaken :
    {S A : Type 0} (P Q : A → S → Type 0) (r : Outcome S A)
    → Returns P r
    → ((a : A) (s : S) → P a s → Q a s)
    → Returns Q r
Returns-weaken P Q (ok a s) h k = k a s h
Returns-weaken P Q (stop e s) h k = h

-- If a run returns, its result and its state have a property.
abbrev pub After : {S A : Type 0} → (A → S → Type 0) → Outcome S A → Type 0
After Q (ok a s) = Q a s
After Q (stop e s) = Unit {0}

pub After-bind :
    {S A B : Type 0} (P : A → S → Type 0) (Q : B → S → Type 0) (r : Outcome S A) (f : A → M S B)
    → After P r
    → ((a : A) (s : S) → P a s → After Q (f a s))
    → After Q (elim r [ ok a s ↦ f a s | stop e s ↦ stop e s ])
After-bind P Q (ok a s) f h k = k a s h
After-bind P Q (stop e s) f h k = tt

pub After-weaken :
    {S A : Type 0} (P Q : A → S → Type 0) (r : Outcome S A)
    → After P r
    → ((a : A) (s : S) → P a s → Q a s)
    → After Q r
After-weaken P Q (ok a s) h k = k a s h
After-weaken P Q (stop e s) h k = tt

-- A run returns.
abbrev pub Succeeds : {S A : Type 0} → Outcome S A → Type 0
Succeeds (ok a s) = Unit {0}
Succeeds (stop e s) = ⊥

pub Succeeds-bind :
    {S A B : Type 0} (r : Outcome S A) (f : A → M S B)
    → Succeeds r
    → ((a : A) (s : S) → Succeeds (f a s))
    → Succeeds (elim r [ ok a s ↦ f a s | stop e s ↦ stop e s ])
Succeeds-bind (ok a s) f h k = k a s
Succeeds-bind (stop e s) f h k = elim h [ ]

-- A run returns, with a result and a state that have a property.
abbrev pub Gives : {S A : Type 0} → (A → S → Type 0) → Outcome S A → Type 0
Gives Q (ok a s) = Q a s
Gives Q (stop e s) = ⊥

pub Gives-bind :
    {S A B : Type 0} (P : A → S → Type 0) (Q : B → S → Type 0) (r : Outcome S A) (f : A → M S B)
    → Gives P r
    → ((a : A) (s : S) → P a s → Gives Q (f a s))
    → Gives Q (elim r [ ok a s ↦ f a s | stop e s ↦ stop e s ])
Gives-bind P Q (ok a s) f h k = k a s h
Gives-bind P Q (stop e s) f h k = elim h [ ]

pub Gives-weaken :
    {S A : Type 0} (P Q : A → S → Type 0) (r : Outcome S A)
    → Gives P r
    → ((a : A) (s : S) → P a s → Q a s)
    → Gives Q r
Gives-weaken P Q (ok a s) h k = k a s h
Gives-weaken P Q (stop e s) h k = elim h [ ]

-- A run stops in a given way.
abbrev pub Stops : {S A : Type 0} → Exit → Outcome S A → Type 0
Stops x (ok a s) = ⊥
Stops x (stop e s) = e ≡ x

pub Stops-bind :
    {S A B : Type 0} (P : A → S → Type 0) (x : Exit) (r : Outcome S A) (f : A → M S B)
    → Gives P r
    → ((a : A) (s : S) → P a s → Stops x (f a s))
    → Stops x (elim r [ ok a s ↦ f a s | stop e s ↦ stop e s ])
Stops-bind P x (ok a s) f h k = k a s h
Stops-bind P x (stop e s) f h k = elim h [ ]

pub Stops-then :
    {S A B : Type 0} (x : Exit) (r : Outcome S A) (f : A → M S B)
    → Stops x r
    → Stops x (elim r [ ok a s ↦ f a s | stop e s ↦ stop e s ])
Stops-then x (ok a s) f h = elim h [ ]
Stops-then x (stop e s) f h = h

-- A run that stops after a step that returned, and where it stops.
pub Stops-final-bind :
    {S A B : Type 0} (P : A → S → Type 0) (Q : S → Type 0) (x : Exit) (r : Outcome S A)
    (f : A → M S B)
    → Gives P r
    → ((a : A) (s : S) → P a s → Stops x (f a s) × Q (final (f a s)))
    → Stops x (elim r [ ok a s ↦ f a s | stop e s ↦ stop e s ])
      × Q (final (elim r [ ok a s ↦ f a s | stop e s ↦ stop e s ]))
Stops-final-bind P Q x (ok a s) f h k = k a s h
Stops-final-bind P Q x (stop e s) f h k = elim h [ ]

pub Stops-final-then :
    {S A B : Type 0} (Q : S → Type 0) (x : Exit) (r : Outcome S A) (f : A → M S B)
    → Stops x r × Q (final r)
    → Stops x (elim r [ ok a s ↦ f a s | stop e s ↦ stop e s ])
      × Q (final (elim r [ ok a s ↦ f a s | stop e s ↦ stop e s ]))
Stops-final-then Q x (ok a s) f h = elim (h.0) [ ]
Stops-final-then Q x (stop e s) f h = h
