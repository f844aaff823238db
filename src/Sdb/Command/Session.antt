-- ===== src/Sdb/Command/Session.antt =====
-- The moves between the states of the program, for every command of hw4/sdb.cpp.
use nctu_unix_programming.Base.{
  ◌≡◌, refl, sym, ◌∙◌, List, [], ◌∷◌, inl, inr, leb, length, Bool-cases, Option-cases,
}
use mathlib.Core.Path.{subst}
use nctu_unix_programming.Base.Text.{Bytes}
use nctu_unix_programming.Monad.{After, After-bind, After-weaken, ◌>>=◌, ◌>>◌}
use nctu_unix_programming.Numbers.{stoull, stoi, stol, to_u64}
use nctu_unix_programming.Sdb.Kernel.{Kernel}
use nctu_unix_programming.Sdb.Status.{wif_stopped}
use nctu_unix_programming.Sdb.State.{
  RunState, noload, loaded, running, Debugger, is_loaded, is_noload, child_pid, already_running,
}
use nctu_unix_programming.Sdb.Breaks.{list}
use nctu_unix_programming.Sdb.Cont.{cont}
use nctu_unix_programming.Sdb.Loader.{load, start, start_loaded, run, run_in, get_orig_code}
use nctu_unix_programming.Sdb.Cont.{si}
use nctu_unix_programming.Sdb.Regs.{print_reg, print_all_regs, set_reg}
use nctu_unix_programming.Sdb.Show.{disasm, dump, dump_rounds, help}
use nctu_unix_programming.Sdb.Maps.{vmmap}
use nctu_unix_programming.Sdb.Elf.{elf_read}
use nctu_unix_programming.Sdb.Command.{
  Command, break, cont_cmd, delete, disasm_cmd, dump_cmd, exit_cmd, get_cmd, getregs, help_cmd,
  list_cmd, load_cmd, run_cmd, vmmap_cmd, set_cmd, si_cmd, start_cmd, unknown, execute,
}
use nctu_unix_programming.Sdb.Command.Info.{cont-Ends, si-Same}
use nctu_unix_programming.Sdb.Command.Views.{
  get_orig_code-Same, elf_read-bp_vec, disasm-Same, dump_rounds-Same, vmmap-Same, list-Same,
  print_reg-Same, print_all_regs-Same, set_reg-Same,
}
use nctu_unix_programming.Sdb.Cont.Ended.{HasEnded}
use nctu_unix_programming.Sdb.Command.Moves.{
  Moves, ended_info, stays, loads, starts, run_starts, run_ends, run_continues, cont_ends, Idle,
  Moved, is_loaded-loaded, is_noload-noload, running-Idle, info_state, is_loaded_of, Same-Moved,
  argument-Moved, or_throw-Moved, set_bp-Moved, del_bp-Moved, cont-Moved,
}

loads_from : {E : Type 0} {s : RunState} → s ≡ noload → Moves E load_cmd s loaded
loads_from {E} h = subst (λ s. Moves E load_cmd s loaded) (sym h) loads

stays_at : {E : Type 0} {s t : RunState} (c : Command) → s ≡ t → Moves E c s t
stays_at {E} {s} c h = subst (Moves E c s) h (stays c s)

module _ {K : Kernel} where
  get_orig_code-running :
      (d : Debugger K)
      → d.info.state ≡ running
      → After (λ _ d'. d'.info.state ≡ running) (get_orig_code d.info d)
  get_orig_code-running d r =
      After-weaken (λ _ d'. d'.info ≡ d.info) (λ _ d'. d'.info.state ≡ running)
        (get_orig_code d.info d) (get_orig_code-Same d.info d) λ _ d' x. info_state x ∙ r

  -- start on a loaded program, if it returns, leaves it running.
  start_loaded-running : (d : Debugger K) → After (λ _ d'. d'.info.state ≡ running) (start_loaded d)
  unfolding start_loaded
  start_loaded-running d = elim (Option-cases (K.spawn d.world d.info.path)) [
    | inl e ↦ rw (e, After) tt
    | inr ((child, w), e) ↦
        rw (e, After)
          (elim (Bool-cases ((K.wait_pid w child).0)) [
            | inr f ↦ rw (f, After) tt
            | inl f ↦
                rw (f, After)
                  (elim (Bool-cases (wif_stopped ((K.wait_pid w child).1))) [
                    | inr g ↦ rw (g, After) tt
                    | inl g ↦
                        rw (g, After)
                          (get_orig_code-running
                            (record d {
                              info = record (d.info) { state = running; pid = child };
                              world = K.exit_kill ((K.wait_pid w child).2) child;
                              err = child_pid child ∷ d.err;
                            })
                            refl)
                  ])
          ])
  ]

  pub load-Moved :
      (path : Bytes) (d : Debugger K) → Idle d.info → Moved load_cmd d.info.state (load path d)
  unfolding load
  load-Moved path d h = elim (Bool-cases (is_noload d.info.state)) [
    | inr e ↦ rw (e, After) (h, stays load_cmd d.info.state)
    | inl e ↦ rw e (
        After-bind (λ i d'. (i.bp_vec ≡ []) × (d'.info ≡ d.info)) _ (elf_read path d) _
          (elf_read-bp_vec path d)
          λ i d' x. ((λ _. x.0), loads_from (is_noload-noload d.info.state e)))
  ]

  -- A run of start leaves the program running, or, where it is not loaded, changes no information.
  start-Moved : (d : Debugger K) → Idle d.info → Moved start_cmd d.info.state (start d)
  unfolding start
  start-Moved d h = elim (Bool-cases (is_loaded d.info.state)) [
    | inr e ↦ rw (e, After) (h, stays start_cmd d.info.state)
    | inl e ↦ rw e (
        After-weaken _ _ (start_loaded d) (start_loaded-running d) λ _ d' x. (
          running-Idle d'.info x,
          subst (λ s. Moves (HasEnded d') start_cmd d.info.state s) (sym x)
              (subst (λ s. Moves (HasEnded d') start_cmd s running)
                (sym (is_loaded-loaded d.info.state e)) starts),
        ))
  ]

  -- cont on a program that start has left running.
  started-Moved : (d : Debugger K) → d.info.state ≡ running → Moved run_cmd loaded (cont d)
  started-Moved d r = After-weaken _ _ (cont d) (cont-Ends d) λ _ d' x. elim x [
    | inl f ↦ (
      running-Idle d'.info (info_state f ∙ r),
      subst (λ s. Moves (HasEnded d') run_cmd loaded s) (sym (info_state f ∙ r)) run_starts,
    )
    | inr f ↦ (
      subst Idle (sym (ended_info d' f)) (λ k. refl),
      subst (λ i. Moves (HasEnded d') run_cmd loaded i.state) (sym (ended_info d' f))
          (run_ends (d.info.pid, f)),
    )
  ]

  run_in-Moved :
      (s : RunState) (d : Debugger K)
      → d.info.state ≡ s
      → Idle d.info
      → Moved run_cmd s (run_in s d)
  unfolding run_in start
  run_in-Moved noload d r h = (h, stays_at run_cmd (sym r))
  run_in-Moved running d r h =
      subst (λ s. Moved run_cmd s (cont (record d { err = already_running d.info.path ∷ d.err }))) r
        (cont-Moved run_cmd (record d { err = already_running d.info.path ∷ d.err })
          (λ d' x. run_continues x) h)
  run_in-Moved loaded d r h =
      rw (◌>>◌, ◌>>=◌, is_loaded_of d.info.state r)
        (After-bind (λ _ d'. d'.info.state ≡ running)
          (λ _ d'. Idle d'.info × Moves (HasEnded d') run_cmd loaded d'.info.state) (start_loaded d)
          _ (start_loaded-running d) λ _ d1 x. started-Moved d1 x)

  -- If only a running program has break points, then after a command that returns this is so
  -- again, and the command has made one of its moves: load from not loaded to loaded, start and
  -- run from loaded to running, cont and run to not loaded, where a wait has reported the exit of the
  -- process and the status was printed, and no other command any.
  pub execute-Moves :
      (c : Command) (input : List Bytes) (d : Debugger K)
      → Idle d.info
      → After
          (λ _ d'. Idle d'.info × Moves (HasEnded d') c d.info.state d'.info.state)
          (execute c input d)
  unfolding execute run dump help
  execute-Moves break input d h = elim (Bool-cases (leb 2 (length input))) [
    | inr e ↦ rw (e, After) (h, stays break d.info.state)
    | inl e ↦ rw e (
        argument-Moved break d.info.state input 1 _ d
          λ s. or_throw-Moved break d.info.state (stoull s) _ d λ addr. set_bp-Moved break addr d h)
  ]
  execute-Moves cont_cmd input d h = cont-Moved cont_cmd d (λ d' x. cont_ends x) h
  execute-Moves delete input d h =
      argument-Moved delete d.info.state input 1 _ d
        λ s. or_throw-Moved delete d.info.state (stoi s) _ d λ idx. del_bp-Moved delete idx d h
  execute-Moves disasm_cmd input d h = elim (Bool-cases (leb 2 (length input))) [
    | inr e ↦ rw (e, After) (h, stays disasm_cmd d.info.state)
    | inl e ↦ rw e (
        argument-Moved disasm_cmd d.info.state input 1 _ d λ s.
          or_throw-Moved disasm_cmd d.info.state (stoull s) _ d
            λ addr. Same-Moved disasm_cmd d (disasm addr d) h (disasm-Same addr d))
  ]
  execute-Moves dump_cmd input d h = elim (Bool-cases (leb 2 (length input))) [
    | inr e ↦ rw (e, After) (h, stays dump_cmd d.info.state)
    | inl e ↦ rw e (
        argument-Moved dump_cmd d.info.state input 1 _ d λ s.
          or_throw-Moved dump_cmd d.info.state (stoull s) _ d
            λ addr. Same-Moved dump_cmd d (dump_rounds 5 addr d) h (dump_rounds-Same 5 addr d))
  ]
  execute-Moves exit_cmd input d h = tt
  execute-Moves get_cmd input d h =
      argument-Moved get_cmd d.info.state input 1 _ d
        λ s. Same-Moved get_cmd d (print_reg s d) h (print_reg-Same s d)
  execute-Moves getregs input d h =
      Same-Moved getregs d (print_all_regs d) h (print_all_regs-Same d)
  execute-Moves help_cmd input d h = (h, stays help_cmd d.info.state)
  execute-Moves list_cmd input d h = Same-Moved list_cmd d (list d) h (list-Same d)
  execute-Moves load_cmd input d h =
      argument-Moved load_cmd d.info.state input 1 _ d λ s. load-Moved s d h
  execute-Moves run_cmd input d h = run_in-Moved d.info.state d refl h
  execute-Moves vmmap_cmd input d h = Same-Moved vmmap_cmd d (vmmap d) h (vmmap-Same d)
  execute-Moves set_cmd input d h = elim (Bool-cases (leb 3 (length input))) [
    | inr e ↦ rw (e, After) (h, stays set_cmd d.info.state)
    | inl e ↦ rw e (
        argument-Moved set_cmd d.info.state input 1 _ d λ s.
          argument-Moved set_cmd d.info.state input 2 _ d λ t.
            or_throw-Moved set_cmd d.info.state (stol t) _ d λ val.
              Same-Moved set_cmd d (set_reg s (to_u64 val) d) h (set_reg-Same s (to_u64 val) d))
  ]
  execute-Moves si_cmd input d h = Same-Moved si_cmd d (si d) h (si-Same d)
  execute-Moves start_cmd input d h = start-Moved d h
  execute-Moves unknown input d h = (h, stays unknown d.info.state)
