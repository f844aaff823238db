-- ===== src/Sdb/Cont/Steps.antt =====
-- The steps of cont of hw4/sdb.cpp against a program and a set of break points.
use nctu_unix_programming.Base.{
  ℕ, ◌<◌, ◌≡◌, refl, ◌∙◌, Bool, true, false, some, List, ◌⊎◌, inl, inr, set, arith, Bool-cases,
  Option-cases,
}
use nctu_unix_programming.Sdb.Kernel.{Kernel, IsLawful}
use nctu_unix_programming.Monad.{Returns}
use nctu_unix_programming.Sdb.Word.{word_pred, patch, int3}
use nctu_unix_programming.Sdb.State.{
  ProgInfo, Breakpoint, Instruction1, Message, no_breakpoint, Debugger, rip_of,
}
use nctu_unix_programming.Sdb.Breaks.{has_bp}
use nctu_unix_programming.Sdb.Breaks.Refines.{Shows, Keeps}
use nctu_unix_programming.Sdb.Breaks.Memory.{byte-patch, byte-patch_from}
use nctu_unix_programming.Sdb.Cont.{step_over, hit, resume_and_wait}

-- The program does not write to its code while it runs.
pub record IsQuiet (K : Kernel) (L : IsLawful K) (code : ℕ → Bool) : Type 0 where
  pub byte-single_step :
      (w w' : K.World) (p q x : ℕ)
      → K.single_step w p ≡ some w'
      → code x ≡ true
      → L.byte w' q x ≡ L.byte w q x
  pub byte-resume :
      (w w' : K.World) (p q x : ℕ)
      → K.resume w p ≡ some w'
      → code x ≡ true
      → L.byte w' q x ≡ L.byte w q x
  pub byte-wait_pid :
      (w : K.World) (p q x : ℕ) → code x ≡ true → L.byte ((K.wait_pid w p).2) q x ≡ L.byte w q x

module _ (K : Kernel) (L : IsLawful K) (code : ℕ → Bool) (prog : ℕ → ℕ) (quiet : IsQuiet K L code)
    (bounded : (x : ℕ) → prog x < 256) (no_null : code 0 ≡ false) where
  -- A change of the world that leaves the code alone, a message, and a listed or no break point to
  -- restore.
  pub Shows-world :
      (d : Debugger K) (w' : K.World) (ms : List Message) (r : Breakpoint)
      → Shows K L code prog d
      → ((x : ℕ) → code x ≡ true → L.byte w' d.info.pid x ≡ L.byte d.world d.info.pid x)
      → (r ≡ no_breakpoint) ⊎ ((has_bp d.info.bp_vec r.addr ≡ true) × Keeps code prog r)
      → Shows K L code prog (record d { world = w'; err = ms; bp_restore = r })
  Shows-world d w' ms r s same h = record {
    shown = λ x c. same x c ∙ s.shown x c;
    kept = s.kept;
    distinct = s.distinct;
    restorable = h;
  }

  -- The world at the end of step_over, from the worlds on the way.
  stepped_over-Shows :
      (d : Debugger K) (w1 w2 w4 : K.World)
      → let p = d.info.pid in
        let a = d.bp_restore.addr in
        let word = K.peek d.world p a in
        Shows K L code prog d
        → K.poke d.world p a (patch word d.bp_restore.orig_patch) ≡ some w1
        → K.single_step w1 p ≡ some w2
        → K.poke ((K.wait_pid w2 p).2) p a (patch word int3) ≡ some w4
        → Shows K L code prog (record d { world = w4; bp_restore = no_breakpoint })
  stepped_over-Shows d w1 w2 w4 s e1 e2 e4 =
      Shows-world d w4 d.err no_breakpoint s
        (λ x c. ground (
          arith,
          byte-patch_from K L d.world ((K.wait_pid w2 p).2) w4 p a int3 p x (omega arith)
              (L.peek_errno-poke d.world w1 p a _ e1) e4,
          quiet.byte-wait_pid w2 p p x c,
          quiet.byte-single_step w1 w2 p p x e2 c,
          byte-patch K L d.world w1 p a d.bp_restore.orig_patch p x orig_bounded e1,
          s.restorable,
          s.shown x c,
          no_null,
        ))
        (inl refl)
    where
      p : ℕ
      p = d.info.pid

      a : ℕ
      a = d.bp_restore.addr

      orig_bounded : d.bp_restore.orig_patch < 256
      orig_bounded = ground (arith, s.restorable, bounded d.bp_restore.addr)

  abbrev pub Keeping : ProgInfo → Debugger K → Type 0
  Keeping i d = Shows K L code prog d × (d.info ≡ i)

  pub step_over-Shows :
      {i : ProgInfo} (d : Debugger K)
      → Keeping i d
      → Returns (λ _ d'. Keeping i d') (step_over d.bp_restore d)
  unfolding step_over
  step_over-Shows d s =
      elim (Option-cases (
        K.poke d.world d.info.pid d.bp_restore.addr
          (patch (K.peek d.world d.info.pid d.bp_restore.addr) d.bp_restore.orig_patch))) [
            | inl e1 ↦ rw (e1, Returns) refl
            | inr (w1, e1) ↦
                rw (e1, Returns)
                  (elim (Option-cases (K.single_step w1 d.info.pid)) [
                    | inl e2 ↦ rw (e2, Returns) refl
                    | inr (w2, e2) ↦
                        rw (e2, Returns)
                          (elim (Bool-cases ((K.wait_pid w2 d.info.pid).0)) [
                            | inr t ↦ rw (t, Returns) refl
                            | inl t ↦
                                rw (t, Returns)
                                  (elim (Option-cases (
                                    K.poke ((K.wait_pid w2 d.info.pid).2) d.info.pid
                                      d.bp_restore.addr
                                      (patch (K.peek d.world d.info.pid d.bp_restore.addr) int3))) [
                                        | inl e4 ↦ rw (e4, Returns) refl
                                        | inr (w4, e4) ↦
                                            rw (e4, Returns)
                                              (stepped_over-Shows d w1 w2 w4 s.0 e1 e2 e4, s.1)
                                      ])
                          ])
                  ])
          ]

  pub resume_and_wait-Shows :
      {i : ProgInfo} (d : Debugger K)
      → Keeping i d
      → Returns (λ _ d'. Keeping i d') (resume_and_wait d)
  unfolding resume_and_wait
  resume_and_wait-Shows d s = elim (Option-cases (K.resume d.world d.info.pid)) [
    | inl e ↦ rw e (
      Shows-world d _ d.err d.bp_restore s.0
          (λ x c. quiet.byte-wait_pid d.world d.info.pid d.info.pid x c) s.0.restorable,
      s.1,
    )
    | inr (w, e) ↦ rw e (
      Shows-world d _ d.err d.bp_restore s.0
          (λ x c.
            quiet.byte-wait_pid w d.info.pid d.info.pid x c
            ∙ quiet.byte-resume d.world w d.info.pid d.info.pid x e c)
          s.0.restorable,
      s.1,
    )
  ]

  pub hit-Shows :
      {i : ProgInfo} (regs : List ℕ) (it : Breakpoint) (ins : Instruction1) (d : Debugger K)
      → Keeping i d
      → Keeps code prog it
      → has_bp d.info.bp_vec it.addr ≡ true
      → Returns (λ _ d'. Keeping i d') (hit regs it ins d)
  unfolding hit
  hit-Shows regs it ins d s k h =
      elim (Option-cases (K.set_regs d.world d.info.pid (set regs 16 (word_pred (rip_of regs))))) [
        | inl e ↦ rw (e, Returns) refl
        | inr (w, e) ↦
            rw (e, Returns)
              (
                Shows-world d w _ it s.0
                    (λ x c. L.byte-set_regs d.world w d.info.pid _ d.info.pid x e) (inr (h, k)),
                s.1,
              )
      ]
