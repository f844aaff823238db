-- ===== src/Sdb/Cont/Refines.antt =====
-- cont against a program and a set of break points.
use nctu_unix_programming.Base.{
  ap, some, not, ℕ, ◌<◌, ◌≡◌, refl, Bool, true, false, List, [], ◌∷◌, ◌⊎◌, inl, inr, ◌==◌, arith,
  Bool-cases, Option-cases, All,
}
use nctu_unix_programming.Sdb.Kernel.{Kernel, IsLawful}
use nctu_unix_programming.Monad.{when, Returns, Returns-bind}
use nctu_unix_programming.Sdb.Word.{word_pred}
use nctu_unix_programming.Sdb.Status.{wif_stopped, wif_exited}
use nctu_unix_programming.Sdb.State.{
  ProgInfo, no_program, child_exited, text, Breakpoint, Debugger, running, is_running_of, rip_of,
}
use nctu_unix_programming.Sdb.Breaks.{has_bp}
use nctu_unix_programming.Sdb.Breaks.Refines.{Shows, Keeps}
use nctu_unix_programming.Sdb.Cont.{
  find_instruction, step_over, scan_hits, report_stop, report_exit, resume_and_wait,
  wait_and_report, cont,
}
use nctu_unix_programming.Sdb.Cont.Ended.{
  EndedAt, resumed, status_of, report_exit_running, wait_and_report_exited,
}
use mathlib.Core.Path.{subst}
use nctu_unix_programming.Sdb.Cont.Steps.{
  IsQuiet, Shows-world, step_over-Shows, resume_and_wait-Shows, hit-Shows,
}

module _ (K : Kernel) (L : IsLawful K) (code : ℕ → Bool) (prog : ℕ → ℕ) (quiet : IsQuiet K L code)
    (bounded : (x : ℕ) → prog x < 256) (no_null : code 0 ≡ false) where
  abbrev Kept : ProgInfo → Debugger K → Type 0
  Kept i d = Shows K L code prog d × (d.info ≡ i)

  -- The part of the table that is still to be scanned.
  abbrev Listed : Debugger K → List Breakpoint → Type 0
  Listed d bps = All (λ it. Keeps code prog it × (has_bp d.info.bp_vec it.addr ≡ true)) bps

  abbrev announced : Debugger K → Debugger K
  announced d = record d { err = text "** breakpoint @\t" ∷ d.err }

  announced-Shows : (d : Debugger K) → Shows K L code prog d → Shows K L code prog (announced d)
  announced-Shows d s =
      Shows-world K L code prog quiet bounded no_null d d.world _ d.bp_restore s (λ x c. refl)
        s.restorable

  scan_hits-Shows :
      {i : ProgInfo} (regs : List ℕ) (bps : List Breakpoint) (d : Debugger K)
      → Kept i d
      → Listed d bps
      → Returns (λ _ d'. Kept i d') (scan_hits regs bps d)
  unfolding scan_hits
  scan_hits-Shows regs [] d s l = s
  scan_hits-Shows regs (it ∷ bps) d s l = elim (Bool-cases (it.addr == word_pred (rip_of regs))) [
    | inr e ↦ rw (e, Returns) (scan_hits-Shows regs bps d s l.1)
    | inl e ↦
        rw (e, Returns)
          (elim (Option-cases (find_instruction d.orig_instructions it.addr)) [
            | inl f ↦
                rw (f, Returns)
                  (scan_hits-Shows regs bps (announced d) (announced-Shows d s.0, s.1) l.1)
            | inr (ins, f) ↦
                rw (f, Returns)
                  (hit-Shows K L code prog quiet bounded no_null regs it ins (announced d)
                    (announced-Shows d s.0, s.1) l.0.0 l.0.1)
          ])
  ]

  Shows-Listed : (d : Debugger K) → Shows K L code prog d → Listed d d.info.bp_vec
  unfolding has_bp
  Shows-Listed d s = listed d.info.bp_vec s.kept (λ x h. h)
    where
      listed :
          (bps : List Breakpoint)
          → All (Keeps code prog) bps
          → ((x : ℕ) → has_bp bps x ≡ true → has_bp d.info.bp_vec x ≡ true)
          → Listed d bps
      listed [] k h = tt
      listed (it ∷ bps) k h =
          ((k.0, h it.addr (ground arith)), listed bps k.1 (λ x m. h x (ground arith)))

  report_stop-Shows :
      {i : ProgInfo} (status : ℕ) (d : Debugger K)
      → Kept i d
      → Returns (λ _ d'. Kept i d') (report_stop status d)
  unfolding report_stop
  report_stop-Shows status d s = elim (Bool-cases (wif_stopped status)) [
    | inr e ↦ rw (e, Returns) s
    | inl e ↦
        rw (e, Returns)
          (elim (Option-cases (K.get_regs d.world d.info.pid)) [
            | inl f ↦ rw (f, Returns) refl
            | inr (regs, f) ↦
                rw (f, Returns) (scan_hits-Shows regs d.info.bp_vec d s (Shows-Listed d s.0))
          ])
  ]

  -- What cont leaves: the program is shown and its information kept, or a wait has reported its exit.
  abbrev pub Shown : ProgInfo → Debugger K → Type 0
  Shown i d = Kept i d ⊎ EndedAt i.pid d

  wait_and_report-Shown :
      {i : ProgInfo} (d : Debugger K) → Kept i d → Returns (λ _ d'. Shown i d') (wait_and_report d)
  unfolding wait_and_report resume_and_wait
  wait_and_report-Shown {i} d s = elim (Bool-cases (wif_exited (status_of d))) [
    | inl e ↦
        rw (wait_and_report_exited d e, Returns)
          (inr (
            subst (λ p. EndedAt p ended) (ap (λ (i : ProgInfo). i.pid) s.1)
              (resumed d, d.err, e, refl, refl, refl)))
    | inr e ↦
        Returns-bind (λ _ d'. Kept i d') (λ _ d'. Shown i d') (report_stop (status_of d) waited) _
          (report_stop-Shows (status_of d) waited
            (resume_and_wait-Shows K L code prog quiet bounded no_null d s))
          (at_end e)
  ]
    where
      waited : Debugger K
      waited = record d { world = (K.wait_pid (resumed d) d.info.pid).2 }

      ended : Debugger K
      ended = record waited {
        info = no_program;
        err = child_exited d.info.pid (status_of d) ∷ d.err;
      }

      at_end :
          wif_exited (status_of d) ≡ false
          → (returned : Bool) (d2 : Debugger K) → Kept i d2
          → Returns (λ _ d'. Shown i d') (when (not returned) (report_exit (status_of d)) d2)
      at_end e true d2 s2 = inl s2
      at_end e false d2 s2 = rw (report_exit_running (status_of d) d2 e, Returns) (inl s2)

  -- Where the debugger shows a program with its break points, and the program does not write to
  -- its code, which is not at address 0 and has bytes below 256, cont on the running program ends
  -- in errquit, or shows the same program and keeps its information, the break points included, or
  -- has reset that information after a wait that reported the exit of the process, with that status
  -- printed.
  pub cont-Shown :
      (d : Debugger K)
      → Shows K L code prog d
      → d.info.state ≡ running
      → Returns (λ _ d'. Shown d.info d') (cont d)
  unfolding cont
  cont-Shown d s r =
      rw (is_running_of d.info.state r, Returns)
        (elim (Option-cases (K.get_regs d.world d.info.pid)) [
          | inl f ↦ rw (f, Returns) refl
          | inr (regs, f) ↦
              rw (f, Returns)
                (elim (Bool-cases (rip_of regs == d.bp_restore.addr)) [
                  | inr e ↦ rw (e, Returns) (wait_and_report-Shown d (s, refl))
                  | inl e ↦
                      rw (e, Returns)
                        (Returns-bind (λ _ d'. Kept d.info d') (λ _ d'. Shown d.info d')
                          (step_over d.bp_restore d) _
                          (step_over-Shows K L code prog quiet bounded no_null d (s, refl))
                          λ _ d1 s1. wait_and_report-Shown d1 s1)
                ])
        ])

  -- si has made one single step and one wait.
  abbrev pub Stepped : Debugger K → Debugger K → Type 0
  Stepped d d' =
      (w : K.World) × (K.single_step d.world d.info.pid ≡ some w)
      × (d'.world ≡ (K.wait_pid w d.info.pid).2)
