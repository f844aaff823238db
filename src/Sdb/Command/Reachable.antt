-- ===== src/Sdb/Command/Reachable.antt =====
-- Whole sessions of hw4/sdb.cpp, from the start of main on.
use nctu_unix_programming.Base.{
  zero, suc, Bool, true, false, Option, none, some, List, [], ◌∷◌, Option-cases, inl, inr,
}
use nctu_unix_programming.Base.Text.{Bytes, codes}
use nctu_unix_programming.Monad.{Outcome, After, After-bind, After-weaken}
use nctu_unix_programming.Sdb.Kernel.{Kernel}
use nctu_unix_programming.Sdb.Split.{split_str2_vec}
use nctu_unix_programming.Sdb.State.{Debugger}
use nctu_unix_programming.Sdb.Loader.{load}
use nctu_unix_programming.Sdb.Command.{
  command_of, execute, prompt, handle_line, run_line, run_lines, main, chomp,
}
use nctu_unix_programming.Sdb.Command.Moves.{Idle}
use nctu_unix_programming.Sdb.Command.Session.{execute-Moves, load-Moved}

module _ {K : Kernel} where
  -- A run that returns leaves no break points where no program runs.
  abbrev Idles : {A : Type 0} → Outcome (Debugger K) A → Type 0
  Idles r = After (λ _ d. Idle d.info) r

  prompt-Idles : (ifprint : Bool) (d : Debugger K) → Idle d.info → Idles (prompt ifprint d)
  prompt-Idles true d h = h
  prompt-Idles false d h = h

  handle_line-Idles :
      (ifprint : Bool) (line : Bytes) (d : Debugger K)
      → Idle d.info
      → Idles (handle_line ifprint line d)
  unfolding handle_line
  handle_line-Idles ifprint line d h = elim (Option-cases (split_str2_vec line (codes " "))) [
    | inl e ↦ rw (e, After) tt
    | inr ([], e) ↦ rw (e, After) h
    | inr (cmd ∷ args, e) ↦
        rw (e, After)
          (After-bind (λ _ d'. Idle d'.info) (λ _ d'. Idle d'.info)
            (execute (command_of cmd) (cmd ∷ args) d) _
            (After-weaken _ (λ _ d'. Idle d'.info) (execute (command_of cmd) (cmd ∷ args) d)
              (execute-Moves (command_of cmd) (cmd ∷ args) d h) λ _ d' x. x.0)
            λ _ d1 h1. prompt-Idles ifprint d1 h1)
  ]

  run_line-Idles :
      (ifprint : Bool) (line : Bytes) (d : Debugger K)
      → Idle d.info
      → Idles (run_line ifprint line d)
  unfolding run_line
  run_line-Idles ifprint [] d h = tt
  run_line-Idles ifprint (zero ∷ line) d h = tt
  run_line-Idles ifprint (suc c ∷ line) d h = handle_line-Idles ifprint (chomp (suc c ∷ line)) d h

  run_lines-Idles :
      (ifprint : Bool) (lines : List Bytes) (d : Debugger K)
      → Idle d.info
      → Idles (run_lines ifprint lines d)
  unfolding run_lines
  run_lines-Idles ifprint [] d h = h
  run_lines-Idles ifprint (line ∷ lines) d h =
      After-bind (λ _ d'. Idle d'.info) (λ _ d'. Idle d'.info) (run_line ifprint line d) _
        (run_line-Idles ifprint line d h) λ _ d1 h1. run_lines-Idles ifprint lines d1 h1

  prompted-Idles :
      (ifprint : Bool) (lines : List Bytes) (d : Debugger K)
      → Idle d.info
      → Idles (main none ifprint lines d)
  unfolding main
  prompted-Idles ifprint lines d h =
      After-bind (λ _ d'. Idle d'.info) (λ _ d'. Idle d'.info) (prompt ifprint d) _
        (prompt-Idles ifprint d h) λ _ d1 h1. run_lines-Idles ifprint lines d1 h1

  -- However main is started and whatever the input is, if main comes to the end of its input then a
  -- program that does not run has no break points, given that this held before.
  pub main-Idle :
      (path : Option Bytes) (ifprint : Bool) (lines : List Bytes) (d : Debugger K)
      → Idle d.info
      → After (λ _ d'. Idle d'.info) (main path ifprint lines d)
  unfolding main
  main-Idle none ifprint lines d h = prompted-Idles ifprint lines d h
  main-Idle (some path) ifprint lines d h =
      After-bind (λ _ d'. Idle d'.info) (λ _ d'. Idle d'.info) (load path d) _
        (After-weaken _ (λ _ d'. Idle d'.info) (load path d) (load-Moved path d h) λ _ d' x. x.0)
        λ _ d1 h1. prompted-Idles ifprint lines d1 h1
