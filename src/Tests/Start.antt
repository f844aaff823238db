-- ===== src/Tests/Start.antt =====
-- hw2 on a system with a few open files.
use nctu_unix_programming.Base.{
  ℕ, ◌<◌, ◌≡◌, ◌≢◌, refl, Option, none, some, List, [], ◌∷◌, ◌==◌, ==_refl, leb, Bool-cases, inl,
  inr, arith, if◌then◌else◌,
}
use mathlib.Core.Path.{subst}
use nctu_unix_programming.Base.Text.{Bytes, codes}
use nctu_unix_programming.Numbers.{ℤ, pos, negsuc}
use nctu_unix_programming.Logger.Launch
use nctu_unix_programming.Logger.Launch.{Os, opt_file, Execvp, exec}
use nctu_unix_programming.Logger.Launch.Laws.{IsOs, SameBut, main-exec}

-- The path of each open file, and what was printed.
record Files : Type 0 where
  at : ℕ → Option Bytes
  printed : List Bytes

abbrev put : ℕ → Bytes → Files → Files
put n f w = record w { at = λ k. if k == n then some f else w.at k }

put-same : (n : ℕ) (f : Bytes) (w : Files) → (put n f w).at n ≡ some f
put-same n f w = rw (==_refl n) refl

put_other : (n : ℕ) (f : Bytes) (w : Files) (k : ℕ) → k ≢ n → (put n f w).at k ≡ w.at k
put_other n f w k d = elim (Bool-cases (k == n)) [
  | inl e ↦ let same : k ≡ n = ground arith in absurd (d same)
  | inr e ↦ rw e refl
]

abbrev copied : Option Bytes → ℕ → Files → ℤ × Files
copied none new w = (negsuc 8, w)
copied (some f) new w = (pos new, put new f w)

-- A file is opened at descriptor 3; the empty path names none.
abbrev opens : Bytes → Files → ℤ × Files
opens [] w = (negsuc 1, w)
opens (c ∷ f) w = (pos 3, put 3 (c ∷ f) w)

abbrev system : Os
system = record {
  World = Files;
  open_log = opens;
  dup2 = λ old new w. copied (w.at old) new w;
  perror = λ s w. record w { printed = s ∷ w.printed };
}

copied-target :
    (old new : ℕ) (f : Bytes) (w : Files)
    → w.at old ≡ some f
    → new < 1024
    → let w' = (copied (w.at old) new w).1 in
      (w'.at new ≡ some f) × (w'.printed ≡ w.printed) × ((k : ℕ) → k ≢ new → w'.at k ≡ w.at k)
copied-target old new f w e l = rw e (put-same new f w, refl, put_other new f w)

opens-pos :
    (name : Bytes) (w : Files) (n : ℕ)
    → let (r, w') = opens name w in
      r ≡ pos n
      → (f : Bytes) × (f ≡ name)
        × (w'.at n ≡ some f)
        × (w'.printed ≡ w.printed)
        × ((k : ℕ) → k ≢ n → w'.at k ≡ w.at k)
opens-pos [] w n h = cc
opens-pos (c ∷ f) w n h =
    let same : 3 ≡ n = cc in
    subst
      (λ m.
        (g : Bytes) × (g ≡ c ∷ f)
        × ((put 3 (c ∷ f) w).at m ≡ some g)
        × (w.printed ≡ w.printed)
        × ((k : ℕ) → k ≢ m → (put 3 (c ∷ f) w).at k ≡ w.at k))
      same (c ∷ f, refl, put-same 3 (c ∷ f) w, refl, put_other 3 (c ∷ f) w)

opens-negsuc :
    (name : Bytes) (w : Files) (n : ℕ)
    → let (r, w') = opens name w in
      r ≡ negsuc n → (w'.printed ≡ w.printed) × ((k : ℕ) → w'.at k ≡ w.at k)
opens-negsuc [] w n h = (refl, λ k. refl)
opens-negsuc (c ∷ f) w n h = cc

unfoldable system-IsOs : IsOs system
system-IsOs = record {
  File = Bytes;
  path = λ f. f;
  target = λ w. w.at;
  messages = λ w. w.printed;
  limit = 1024;
  dup2-target = copied-target;
  open_log-pos = opens-pos;
  open_log-negsuc = opens-negsuc;
  perror-messages = λ s w. (refl, λ k. refl);
}

-- Descriptors 0 to 2 are a terminal.
abbrev terminal : Files
terminal = record { at = λ k. if leb k 2 then some (codes "/dev/tty") else none; printed = [] }

main-exec_example :
    (e : Execvp) × (w' : Files) × (Launch.main system terminal
        (opt_file (codes "a") ∷ opt_file [] ∷ [])
        (codes "ls" ∷ codes "-l" ∷ [])
      ≡ exec e w')
    × (e.ld_preload ≡ codes "./logger.so")
    × (e.file ≡ codes "ls")
    × (e.argv ≡ codes "ls" ∷ codes "-l" ∷ [])
    × ((n : ℕ) × (e.output_fd ≡ pos n)
        × (n ≢ 2)
        × (w'.at n ≡ some (codes "/dev/tty"))
        × SameBut system system-IsOs n terminal w')
unfolding system-IsOs
main-exec_example =
    main-exec system system-IsOs terminal (opt_file (codes "a") ∷ opt_file [] ∷ []) (codes "ls")
      (codes "-l" ∷ []) (codes "/dev/tty") refl refl (omega arith)
