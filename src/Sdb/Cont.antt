-- ===== src/Sdb/Cont.antt =====
-- cont and si of hw4/sdb.cpp. `cont` steps over the break point it stopped at, resumes the program,
-- waits, and reports a break point or the end of the program.
pub mod Ended
pub mod Steps
pub mod Refines
pub mod Reports
use nctu_unix_programming.Base.{
  not, ℕ, Bool, true, false, Option, none, some, List, [], ◌∷◌, ◌==◌, if◌then◌else◌, set,
}
use nctu_unix_programming.Sdb.Kernel.{Kernel}
use nctu_unix_programming.Monad.{pure, ◌>>=◌, ◌>>◌, get, modify, when}
use nctu_unix_programming.Sdb.Word.{patch, int3, word_pred}
use nctu_unix_programming.Sdb.Status.{wif_stopped, wif_exited, wif_signaled, w_termsig}
use nctu_unix_programming.Sdb.State.{
  Breakpoint, no_breakpoint, no_program, Instruction1, Sdb, text, child_signalled, child_exited,
  is_running, say, errquit, or_errquit, put_world, poke, get_regs, rip_of, print_instruction,
}

-- The search of orig_instructions for the first instruction at an address.
unfoldable pub find_instruction : List Instruction1 → ℕ → Option Instruction1
find_instruction [] addr = none
find_instruction (i ∷ is) addr = if i.addr == addr then some i else find_instruction is addr

-- The world after a request whose result is ignored.
abbrev pub or_same : {A : Type 0} → Option A → A → A
or_same none w = w
or_same (some w') w = w'

module _ {K : Kernel} where
  -- waitpid whose failure is checked; its status is not read.
  abbrev wait_checked : Sdb K (Unit {0})
  wait_checked d =
      (let (done, status, w) = K.wait_pid d.world d.info.pid in
          if done then put_world w else errquit "waitpid")
        d

  abbrev single_step : Sdb K (Unit {0})
  single_step = do
    d ← get
    w ← or_errquit (K.single_step d.world d.info.pid) "ptrace@SINGLESTEP"
    put_world w

  -- The word at `addr` is read once: both writes are made from that reading.
  unfoldable pub step_over : Breakpoint → Sdb K (Unit {0})
  step_over bp d =
      (let code = K.peek d.world d.info.pid bp.addr in
          do
            poke d.info.pid bp.addr (patch code bp.orig_patch)
            single_step
            wait_checked
            poke d.info.pid bp.addr (patch code int3)
            modify λ d. record d { bp_restore = no_breakpoint })
        d

  abbrev set_regs : List ℕ → Sdb K (Unit {0})
  set_regs regs = do
    d ← get
    w ← or_errquit (K.set_regs d.world d.info.pid regs) "ptrace(SETREGS)"
    put_world w

  -- A break point was hit and its instruction is known: it is printed, and rip goes back to it.
  unfoldable pub hit : List ℕ → Breakpoint → Instruction1 → Sdb K Bool
  hit regs it i = do
    print_instruction i
    modify λ d. record d { bp_restore = it }
    set_regs (set regs 16 (word_pred (rip_of regs)))
    pure true

  -- The loop over bp_vec; whether it returns from cont.
  unfoldable pub scan_hits : List ℕ → List Breakpoint → Sdb K Bool
  unfolding find_instruction hit
  scan_hits regs [] d = pure false d
  scan_hits regs (it ∷ bps) d =
      let rest = scan_hits regs bps in
      if it.addr == word_pred (rip_of regs)
      then (do
        say (text "** breakpoint @\t")
        elim (find_instruction d.orig_instructions it.addr) [
          | some i ↦ hit regs it i
          | none ↦ rest
        ])
          d
      else rest d

  unfoldable pub report_stop : ℕ → Sdb K Bool
  unfolding scan_hits
  report_stop status d =
      if wif_stopped status
      then (do regs ← get_regs; scan_hits regs d.info.bp_vec) d
      else pure false d

  unfoldable pub report_exit : ℕ → Sdb K (Unit {0})
  report_exit status d =
      if wif_exited status
      then (do
        if wif_signaled status
            then say (child_signalled d.info.pid (w_termsig status))
            else say (child_exited d.info.pid status)
        modify λ d. record d { info = no_program })
          d
      else pure tt d

  -- PTRACE_CONT and waitpid, whose results are ignored; the status.
  unfoldable pub resume_and_wait : Sdb K ℕ
  resume_and_wait d =
      let resumed = or_same (K.resume d.world d.info.pid) d.world in
      let (done, status, w) = K.wait_pid resumed d.info.pid in pure status (record d { world = w })

  -- From PTRACE_CONT to the end of the function.
  unfoldable pub wait_and_report : Sdb K (Unit {0})
  unfolding resume_and_wait report_stop report_exit
  wait_and_report = do
    status ← resume_and_wait
    returned ← report_stop status
    when (not returned) (report_exit status)

  unfoldable pub cont_running : Sdb K (Unit {0})
  unfolding step_over wait_and_report
  cont_running d =
      (do
        regs ← get_regs
        when (rip_of regs == d.bp_restore.addr) (step_over d.bp_restore)
        wait_and_report)
        d

  unfoldable pub cont : Sdb K (Unit {0})
  unfolding cont_running
  cont d =
      if is_running d.info.state then cont_running d else say (text "** state must be RUNNING.\n") d

  -- The status of the wait is not looked at.
  unfoldable pub si : Sdb K (Unit {0})
  si d =
      if is_running d.info.state
      then (do
        single_step
        modify
            λ d. (let (done, status, w) = K.wait_pid d.world d.info.pid in record d { world = w }))
          d
      else say (text "** state must be RUNNING.\n") d
