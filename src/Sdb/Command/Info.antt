-- ===== src/Sdb/Command/Info.antt =====
-- cont and si of hw4/sdb.cpp, and prog_info after them.
use nctu_unix_programming.Base.{
  ℕ, ap, ◌≡◌, refl, ◌∙◌, Bool, true, false, not, List, [], ◌∷◌, ◌⊎◌, inl, inr, ◌==◌, Bool-cases,
  Option-cases, set,
}
use nctu_unix_programming.Monad.{when, Outcome, After, After-bind, After-weaken}
use nctu_unix_programming.Sdb.Word.{word_pred, patch, int3}
use nctu_unix_programming.Sdb.Kernel.{Kernel}
use nctu_unix_programming.Sdb.Status.{wif_stopped, wif_exited}
use nctu_unix_programming.Sdb.State.{
  ProgInfo, no_program, child_exited, Breakpoint, Instruction1, Debugger, is_running, rip_of, text,
}
use mathlib.Core.Path.{subst}
use nctu_unix_programming.Sdb.Cont.Ended.{
  EndedAt, resumed, status_of, report_exit_running, wait_and_report_exited,
}
use nctu_unix_programming.Sdb.Cont.{
  find_instruction, step_over, hit, scan_hits, report_stop, report_exit, resume_and_wait,
  wait_and_report, cont_running, cont, si,
}

module _ {K : Kernel} where
  -- The run, if it returns, leaves the information as it was.
  abbrev pub Same : ProgInfo → {A : Type 0} → Outcome (Debugger K) A → Type 0
  Same i r = After (λ _ d. d.info ≡ i) r

  step_over-Same : (bp : Breakpoint) (d : Debugger K) → Same d.info (step_over bp d)
  unfolding step_over
  step_over-Same bp d =
      elim (Option-cases (
        K.poke d.world d.info.pid bp.addr
          (patch (K.peek d.world d.info.pid bp.addr) bp.orig_patch))) [
            | inl e1 ↦ rw (e1, After) tt
            | inr (w1, e1) ↦
                rw (e1, After)
                  (elim (Option-cases (K.single_step w1 d.info.pid)) [
                    | inl e2 ↦ rw (e2, After) tt
                    | inr (w2, e2) ↦
                        rw (e2, After)
                          (elim (Bool-cases ((K.wait_pid w2 d.info.pid).0)) [
                            | inr t ↦ rw (t, After) tt
                            | inl t ↦
                                rw (t, After)
                                  (elim (Option-cases (
                                    K.poke ((K.wait_pid w2 d.info.pid).2) d.info.pid bp.addr
                                      (patch (K.peek d.world d.info.pid bp.addr) int3))) [
                                        | inl e4 ↦ rw (e4, After) tt
                                        | inr (w4, e4) ↦ rw (e4, After) refl
                                      ])
                          ])
                  ])
          ]

  hit-Same :
      (regs : List ℕ) (it : Breakpoint) (ins : Instruction1) (d : Debugger K)
      → Same d.info (hit regs it ins d)
  unfolding hit
  hit-Same regs it ins d =
      elim (Option-cases (K.set_regs d.world d.info.pid (set regs 16 (word_pred (rip_of regs))))) [
        | inl e ↦ rw (e, After) tt
        | inr (w, e) ↦ rw (e, After) refl
      ]

  scan_hits-Same :
      (regs : List ℕ) (bps : List Breakpoint) (d : Debugger K) → Same d.info (scan_hits regs bps d)
  unfolding scan_hits
  scan_hits-Same regs [] d = refl
  scan_hits-Same regs (it ∷ bps) d = elim (Bool-cases (it.addr == word_pred (rip_of regs))) [
    | inr e ↦ rw (e, After) (scan_hits-Same regs bps d)
    | inl e ↦
        rw (e, After)
          (elim (Option-cases (find_instruction d.orig_instructions it.addr)) [
            | inl f ↦
                rw (f, After)
                  (scan_hits-Same regs bps (record d { err = text "** breakpoint @\t" ∷ d.err }))
            | inr (ins, f) ↦
                rw (f, After)
                  (hit-Same regs it ins (record d { err = text "** breakpoint @\t" ∷ d.err }))
          ])
  ]

  report_stop-Same : (status : ℕ) (d : Debugger K) → Same d.info (report_stop status d)
  unfolding report_stop
  report_stop-Same status d = elim (Bool-cases (wif_stopped status)) [
    | inr e ↦ rw (e, After) refl
    | inl e ↦
        rw (e, After)
          (elim (Option-cases (K.get_regs d.world d.info.pid)) [
            | inl f ↦ rw (f, After) tt
            | inr (regs, f) ↦ rw (f, After) (scan_hits-Same regs d.info.bp_vec d)
          ])
  ]

  -- The information is kept, or a wait has reported the exit of the process.
  abbrev pub Ends : ProgInfo → {A : Type 0} → Outcome (Debugger K) A → Type 0
  Ends i r = After (λ _ d. (d.info ≡ i) ⊎ EndedAt i.pid d) r

  wait_and_report-Ends : (i : ProgInfo) (d : Debugger K) → d.info ≡ i → Ends i (wait_and_report d)
  unfolding wait_and_report resume_and_wait
  wait_and_report-Ends i d s = elim (Bool-cases (wif_exited (status_of d))) [
    | inl e ↦
        rw (wait_and_report_exited d e, After)
          (inr (
            subst (λ p. EndedAt p ended) (ap (λ (i : ProgInfo). i.pid) s)
              (resumed d, d.err, e, refl, refl, refl)))
    | inr e ↦
        After-bind (λ _ d'. d'.info ≡ i) (λ _ d'. (d'.info ≡ i) ⊎ EndedAt i.pid d')
          (report_stop (status_of d) waited) _
          (After-weaken (λ _ d'. d'.info ≡ d.info) _ (report_stop (status_of d) waited)
            (report_stop-Same (status_of d) waited) (λ _ d' x. x ∙ s))
          (at_end e)
  ]
    where
      waited : Debugger K
      waited = record d { world = (K.wait_pid (resumed d) d.info.pid).2 }

      ended : Debugger K
      ended = record waited {
        info = no_program;
        err = child_exited d.info.pid (status_of d) ∷ d.err;
      }

      at_end :
          wif_exited (status_of d) ≡ false
          → (returned : Bool) (d2 : Debugger K) → d2.info ≡ i
          → Ends i (when (not returned) (report_exit (status_of d)) d2)
      at_end e true d2 s2 = inl s2
      at_end e false d2 s2 = rw (report_exit_running (status_of d) d2 e, After) (inl s2)

  pub cont-Ends : (d : Debugger K) → Ends d.info (cont d)
  unfolding cont cont_running
  cont-Ends d = elim (Bool-cases (is_running d.info.state)) [
    | inr e ↦ rw (e, After) (inl refl)
    | inl e ↦
        rw (e, After)
          (elim (Option-cases (K.get_regs d.world d.info.pid)) [
            | inl f ↦ rw (f, After) tt
            | inr (regs, f) ↦
                rw (f, After)
                  (elim (Bool-cases (rip_of regs == d.bp_restore.addr)) [
                    | inr g ↦ rw (g, After) (wait_and_report-Ends d.info d refl)
                    | inl g ↦
                        rw (g, After)
                          (After-bind (λ _ d'. d'.info ≡ d.info)
                            (λ _ d'. (d'.info ≡ d.info) ⊎ EndedAt d.info.pid d')
                            (step_over d.bp_restore d) _ (step_over-Same d.bp_restore d)
                            λ _ d1 s1. wait_and_report-Ends d.info d1 s1)
                  ])
          ])
  ]

  pub si-Same : (d : Debugger K) → Same d.info (si d)
  unfolding si
  si-Same d = elim (Bool-cases (is_running d.info.state)) [
    | inr e ↦ rw (e, After) refl
    | inl e ↦
        rw (e, After)
          (elim (Option-cases (K.single_step d.world d.info.pid)) [
            | inl f ↦ rw (f, After) tt
            | inr (w, f) ↦ rw (f, After) refl
          ])
  ]
