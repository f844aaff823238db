-- ===== src/Sdb/Cont/Reports.antt =====
-- cont of hw4/sdb.cpp, where the program stops at a break point or is killed by a signal.
use nctu_unix_programming.Base.{
  ℕ, ◌≡◌, refl, ap, ◌∙◌, Bool, true, false, Option, none, some, List, [], ◌∷◌, ◌==◌, if◌then◌else◌,
  set, arith, Bool-cases, inl, inr,
}
use nctu_unix_programming.Monad.{ok, ◌>>=◌, ◌>>◌}
use mathlib.Core.Option.{some-injective}
use nctu_unix_programming.Sdb.Kernel.{Kernel}
use nctu_unix_programming.Sdb.Word.{word_pred}
use nctu_unix_programming.Sdb.Status.{wif_stopped, wif_exited, wif_signaled}
use nctu_unix_programming.Sdb.State.{
  Breakpoint, Instruction1, Debugger, running, is_running_of, rip_of, text, instruction,
}
use nctu_unix_programming.Sdb.Cont.{
  find_instruction, hit, scan_hits, report_stop, report_exit, resume_and_wait, wait_and_report,
  cont_running, cont,
}

-- The first break point of a table at an address.
unfoldable pub find_bp : List Breakpoint → ℕ → Option Breakpoint
find_bp [] addr = none
find_bp (it ∷ bps) addr = if it.addr == addr then some it else find_bp bps addr

module _ {K : Kernel} where
  scan_hits-find_bp :
      (regs : List ℕ) (bps : List Breakpoint) (it : Breakpoint) (ins : Instruction1) (w : K.World)
      (d : Debugger K)
      → find_bp bps (word_pred (rip_of regs)) ≡ some it
      → find_instruction d.orig_instructions it.addr ≡ some ins
      → K.set_regs d.world d.info.pid (set regs 16 (word_pred (rip_of regs))) ≡ some w
      → scan_hits regs bps d
        ≡ ok true (record d {
          world = w;
          bp_restore = it;
          err = instruction ins ∷ text "** breakpoint @\t" ∷ d.err;
        })
  unfolding scan_hits find_bp hit
  scan_hits-find_bp regs [] it ins w d f g s = let x : none ≡ some it = f in cc
  scan_hits-find_bp regs (bp ∷ bps) it ins w d f g s =
      elim (Bool-cases (bp.addr == word_pred (rip_of regs))) [
        | inr e ↦ rw e (scan_hits-find_bp regs bps it ins w d (rw (e, find_bp) at f) g s)
        | inl e ↦
            let same : bp ≡ it = some-injective _ _ (rw (e, find_bp) at f) in
            rw
              (
                scan_hits,
                ◌>>◌,
                ◌>>=◌,
                e,
                ap (λ (b : Breakpoint). find_instruction d.orig_instructions b.addr) same ∙ g,
                hit,
                s,
              )
              (ap
                (λ (b : Breakpoint). ok true (record d {
                  world = w;
                  bp_restore = b;
                  err = instruction ins ∷ text "** breakpoint @\t" ∷ d.err;
                }))
                same)
      ]

  module _ (d : Debugger K) (regs : List ℕ) (w w2 : K.World) (done : Bool) (status : ℕ)
      (r : d.info.state ≡ running) (g : K.get_regs d.world d.info.pid ≡ some regs)
      (n : (rip_of regs == d.bp_restore.addr) ≡ false) (c : K.resume d.world d.info.pid ≡ some w)
      (p : K.wait_pid w d.info.pid ≡ (done, status, w2)) where
    -- cont on a running program whose registers can be read and which does not stand on the break
    -- point to restore, where the program is resumed and was killed by a signal when waitpid
    -- returns: nothing is reported, and the information, with its state RUNNING, is kept.
    pub cont_killed : wif_signaled status ≡ true → cont d ≡ ok tt (record d { world = w2 })
    unfolding cont cont_running wait_and_report resume_and_wait report_stop report_exit
    cont_killed s =
        rw
          (
            ◌>>=◌,
            ◌>>◌,
            is_running_of d.info.state r,
            g,
            n,
            c,
            p,
            not_stopped,
            report_exit,
            c,
            p,
            not_exited,
          )
          refl
      where
        not_stopped : wif_stopped status ≡ false
        not_stopped = ground arith

        not_exited : wif_exited status ≡ false
        not_exited = ground arith

    -- cont on a running program whose registers can be read and which does not stand on the break
    -- point to restore, where the program is resumed and has stopped when waitpid returns, its
    -- registers can be read and set, and rip is one past a break point whose instruction is known:
    -- the instruction is printed, rip is set back to the break point, and this is the one to
    -- restore.
    pub cont_hit :
        (it : Breakpoint) (ins : Instruction1) (after : List ℕ) (w3 : K.World)
        → wif_stopped status ≡ true
        → K.get_regs w2 d.info.pid ≡ some after
        → find_bp d.info.bp_vec (word_pred (rip_of after)) ≡ some it
        → find_instruction d.orig_instructions it.addr ≡ some ins
        → K.set_regs w2 d.info.pid (set after 16 (word_pred (rip_of after))) ≡ some w3
        → cont d
          ≡ ok tt (record d {
            world = w3;
            bp_restore = it;
            err = instruction ins ∷ text "** breakpoint @\t" ∷ d.err;
          })
    unfolding cont cont_running wait_and_report resume_and_wait report_stop
    cont_hit it ins after w3 s a f i t =
        rw
          (
            ◌>>=◌,
            ◌>>◌,
            is_running_of d.info.state r,
            g,
            n,
            c,
            p,
            s,
            a,
            scan_hits-find_bp after d.info.bp_vec it ins w3 (record d { world = w2 }) f i t,
          )
          refl
