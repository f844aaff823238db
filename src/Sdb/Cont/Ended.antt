-- ===== src/Sdb/Cont/Ended.antt =====
-- The end of the program in cont of hw4/sdb.cpp: what a wait reports, and what follows.
use nctu_unix_programming.Base.{ℕ, ◌≡◌, refl, true, false, List, ◌∷◌, arith}
use nctu_unix_programming.Monad.{ok, ◌>>=◌, ◌>>◌}
use nctu_unix_programming.Sdb.Kernel.{Kernel}
use nctu_unix_programming.Sdb.Status.{wif_stopped, wif_exited, wif_signaled}
use nctu_unix_programming.Sdb.State.{no_program, Message, Debugger, child_exited}
use nctu_unix_programming.Sdb.Cont.{
  or_same, report_stop, report_exit, resume_and_wait, wait_and_report,
}

-- The last wait, for process p, has reported that the process exited; its status was printed, and the
-- information is that of no program.
abbrev pub EndedAt : {K : Kernel} → ℕ → Debugger K → Type 0
EndedAt {K} p d =
    (w : K.World) × (before : List Message) × (wif_exited ((K.wait_pid w p).1) ≡ true)
    × (d.world ≡ (K.wait_pid w p).2)
    × (d.err ≡ child_exited p ((K.wait_pid w p).1) ∷ before)
    × (d.info ≡ no_program)

-- The same of some process.
abbrev pub HasEnded : {K : Kernel} → Debugger K → Type 0
HasEnded d = (p : ℕ) × EndedAt p d

not_stopped : (status : ℕ) → wif_exited status ≡ true → wif_stopped status ≡ false
not_stopped status h = ground arith

not_signaled : (status : ℕ) → wif_exited status ≡ true → wif_signaled status ≡ false
not_signaled status h = ground arith

module _ {K : Kernel} where
  -- The world in which cont waits.
  abbrev pub resumed : Debugger K → K.World
  resumed d = or_same (K.resume d.world d.info.pid) d.world

  -- The status that it gets.
  abbrev pub status_of : Debugger K → ℕ
  status_of d = (K.wait_pid (resumed d) d.info.pid).1

  pub report_exit_running :
      (status : ℕ) (d : Debugger K) → wif_exited status ≡ false → report_exit status d ≡ ok tt d
  unfolding report_exit
  report_exit_running status d h = rw h refl

  pub wait_and_report_exited :
      (d : Debugger K)
      → wif_exited (status_of d) ≡ true
      → wait_and_report d
        ≡ ok tt (record d {
          info = no_program;
          world = (K.wait_pid (resumed d) d.info.pid).2;
          err = child_exited d.info.pid (status_of d) ∷ d.err;
        })
  unfolding wait_and_report resume_and_wait report_stop report_exit
  wait_and_report_exited d h =
      rw (◌>>=◌, ◌>>◌, not_stopped (status_of d) h, report_exit, h, not_signaled (status_of d) h)
        refl
