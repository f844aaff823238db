-- ===== src/Tests/Session.antt =====
-- Sessions of the debugger on the small machine.
use nctu_unix_programming.Base.{
  ℕ, ◌≡◌, refl, true, false, ◌||◌, none, List, [], ◌∷◌, inl, inr, ◌==◌, if◌then◌else◌, set, arith,
}
use mathlib.Core.Option.{some-injective}
use nctu_unix_programming.Base.Text.{codes}
use nctu_unix_programming.Monad.{ok, Returns, After, ◌>>◌}
use nctu_unix_programming.Numbers.{pos}
use nctu_unix_programming.Sdb.Word.{int3, patch}
use nctu_unix_programming.Sdb.State.{
  running, Breakpoint, no_breakpoint, ProgInfo, Instruction1, Debugger, text, instruction,
  reg_value,
}
use nctu_unix_programming.Sdb.Breaks.{has_bp, set_bp, del_bp}
use nctu_unix_programming.Sdb.Breaks.Refines.{Shows, set_bp-Shows, del_bp-Shows}
use nctu_unix_programming.Sdb.Breaks.Again.{set_bp-set_bp}
use nctu_unix_programming.Sdb.Breaks.Undo.{set_bp-del_bp}
use nctu_unix_programming.Sdb.Cont.{find_instruction, cont}
use nctu_unix_programming.Sdb.Cont.Refines.{Shown, cont-Shown}
use nctu_unix_programming.Sdb.Cont.Ended.{HasEnded}
use nctu_unix_programming.Sdb.Cont.Reports.{find_bp, cont_hit, cont_killed}
use nctu_unix_programming.Sdb.Loader.{get_orig_code}
use nctu_unix_programming.Sdb.Loader.Finishes.{Sized, get_orig_code_ends}
use nctu_unix_programming.Sdb.Regs.{offset_of, set_reg, print_reg}
use nctu_unix_programming.Sdb.Regs.Laws.{set_reg-print_reg}
use nctu_unix_programming.Sdb.Command.{break, execute, main}
use nctu_unix_programming.Sdb.Command.Moves.{Idle, Moves}
use nctu_unix_programming.Sdb.Command.Session.{execute-Moves}
use nctu_unix_programming.Sdb.Command.Reachable.{main-Idle}
use nctu_unix_programming.Tests.Machine.{
  Event, toy, toy-IsLawful, toy-IsQuiet, code, prog, nop, at_rip, machine, with_regs, written,
}

-- A running program of sixteen bytes, without break points.
abbrev program : ProgInfo
program = record { state = running; pid = 7; entry = 16; size = 16; path = codes "a"; bp_vec = [] }

abbrev bare : List Event → Debugger toy
bare es = record {
  info = program;
  bp_restore = no_breakpoint;
  orig_instructions = [];
  world = machine es;
  err = [];
}

bare-Shows : (es : List Event) → Shows toy toy-IsLawful code prog (bare es)
unfolding toy-IsLawful has_bp
bare-Shows es = record { shown = λ x c. refl; kept = tt; distinct = tt; restorable = inl refl }

set_bp-Shows_example :
    Returns
      (λ _ d'.
        Shows toy toy-IsLawful code prog d'
        × ((x : ℕ) → has_bp d'.info.bp_vec x ≡ (20 == x || has_bp [] x)))
      (set_bp 20 (bare []))
set_bp-Shows_example =
    set_bp-Shows toy toy-IsLawful code prog (bare []) 20 (bare-Shows []) refl refl

set_bp-del_bp_example :
    Returns
      (λ _ d'.
        (d'.info ≡ (bare []).info)
        × ((q x : ℕ) → toy-IsLawful.byte d'.world q x ≡ toy-IsLawful.byte (bare []).world q x))
      ((set_bp 20 >> del_bp (pos 0)) (bare []))
unfolding has_bp
set_bp-del_bp_example = set_bp-del_bp toy toy-IsLawful (bare []) 20 refl refl (omega arith)

-- The same program with a break point at 20, that the program stands on.
abbrev at_20 : Breakpoint
at_20 = record { addr = 20; orig_patch = 0x90 }

abbrev nop_at_20 : Instruction1
nop_at_20 = record { addr = 20; bytes = 0x90 ∷ []; size = 1; opr = codes "nop"; opnd = [] }

abbrev armed : Breakpoint → ℕ → List Event → Debugger toy
armed restore rip es = record {
  info = record program { bp_vec = at_20 ∷ [] };
  bp_restore = restore;
  orig_instructions = nop_at_20 ∷ [];
  world = record {
    bytes = λ p a. if a == 20 then int3 else 0x90;
    regs = λ p. at_rip rip;
    events = es;
  };
  err = [];
}

armed-Shows : (rip : ℕ) (es : List Event) → Shows toy toy-IsLawful code prog (armed at_20 rip es)
unfolding toy-IsLawful has_bp
armed-Shows rip es = record {
  shown = λ x c. ground arith;
  kept = ((refl, refl), tt);
  distinct = (refl, tt);
  restorable = inr (refl, (refl, refl));
}

del_bp-Shows_example :
    Returns
      (λ _ d'.
        Shows toy toy-IsLawful code prog d'
        × ((x : ℕ) → has_bp d'.info.bp_vec x ≡ (if 20 == x then false else has_bp (at_20 ∷ []) x)))
      (del_bp (pos 0) (armed at_20 20 []))
del_bp-Shows_example =
    del_bp-Shows toy toy-IsLawful code prog (λ x. omega arith) (armed at_20 20 [])
      (armed-Shows 20 []) (pos 0) at_20 refl

-- A stop by a trap, with rip at an address.
abbrev trap : ℕ → Event
trap rip = record { status = 0x57f; regs = at_rip rip }

cont-Shown_example :
    Returns
      (λ _ d'.
        Shown toy toy-IsLawful code prog toy-IsQuiet
          (λ x. omega arith)
          refl
          (armed at_20 20 []).info
          d')
      (cont (armed at_20 20 (trap 21 ∷ trap 21 ∷ [])))
cont-Shown_example =
    cont-Shown toy toy-IsLawful code prog toy-IsQuiet (λ x. omega arith) refl
      (armed at_20 20 (trap 21 ∷ trap 21 ∷ [])) (armed-Shows 20 (trap 21 ∷ trap 21 ∷ [])) refl

cont_hit_example :
    cont (armed no_breakpoint 16 (trap 21 ∷ []))
    ≡ ok tt (record (armed no_breakpoint 16 []) {
      world = with_regs (with_regs ((armed no_breakpoint 16 []).world) 7 (at_rip 21)) 7 (at_rip 20);
      bp_restore = at_20;
      err = instruction nop_at_20 ∷ text "** breakpoint @\t" ∷ [];
    })
unfolding find_bp find_instruction
cont_hit_example =
    cont_hit (armed no_breakpoint 16 (trap 21 ∷ [])) (at_rip 16)
      ((armed no_breakpoint 16 (trap 21 ∷ [])).world)
      (with_regs ((armed no_breakpoint 16 []).world) 7 (at_rip 21)) true 0x57f refl refl refl refl
      refl at_20 nop_at_20 (at_rip 21)
      (with_regs (with_regs ((armed no_breakpoint 16 []).world) 7 (at_rip 21)) 7 (at_rip 20)) refl
      refl refl refl refl

abbrev ended : ℕ → Event
ended status = record { status = status; regs = at_rip 0 }

-- Killed by SIGSEGV.
cont_killed_example :
    cont (armed no_breakpoint 16 (ended 11 ∷ []))
    ≡ ok tt (record (armed no_breakpoint 16 []) {
      world = with_regs ((armed no_breakpoint 16 []).world) 7 (at_rip 0);
    })
cont_killed_example =
    cont_killed (armed no_breakpoint 16 (ended 11 ∷ [])) (at_rip 16)
      ((armed no_breakpoint 16 (ended 11 ∷ [])).world)
      (with_regs ((armed no_breakpoint 16 []).world) 7 (at_rip 0)) true 11 refl refl refl refl refl
      refl

set_bp-set_bp_example :
    set_bp 24 (record (bare []) {
      info = record program { bp_vec = record { addr = 24; orig_patch = 0x90 } ∷ [] };
      world = written (machine []) 7 24 0x90909090909090cc;
    })
    ≡ ok tt (record (bare []) {
      info = record program { bp_vec = record { addr = 24; orig_patch = 0x90 } ∷ [] };
      world = written (machine []) 7 24 0x90909090909090cc;
    })
unfolding set_bp patch
set_bp-set_bp_example =
    set_bp-set_bp 24 (bare [])
      (record (bare []) {
        info = record program { bp_vec = record { addr = 24; orig_patch = 0x90 } ∷ [] };
        world = written (machine []) 7 24 0x90909090909090cc;
      })
      refl refl

toy_sized : Sized toy
toy_sized bytes addr i h = ground (arith, some-injective nop i h)

get_orig_code_ends_example : (d' : Debugger toy) × (get_orig_code program (bare []) ≡ ok tt d')
get_orig_code_ends_example = get_orig_code_ends toy toy_sized program (bare []) (omega arith)

set_reg-print_reg_example :
    (set_reg (codes "rax") 5 >> print_reg (codes "rax")) (bare [])
    ≡ ok tt (record (bare []) {
      world = with_regs (machine []) 7 (set (at_rip 16) 10 5);
      err = reg_value (codes "rax") 5 ∷ [];
    })
unfolding offset_of
set_reg-print_reg_example =
    set_reg-print_reg toy toy-IsLawful (bare []) (with_regs (machine []) 7 (set (at_rip 16) 10 5))
      (at_rip 16) (codes "rax") (codes "rax") 10 10 5 refl refl refl refl (omega arith) refl

execute-Moves_example :
    After
      (λ _ d'. Idle d'.info × Moves (HasEnded d') break running d'.info.state)
      (execute break (codes "b" ∷ codes "0x14" ∷ []) (bare []))
execute-Moves_example = execute-Moves break (codes "b" ∷ codes "0x14" ∷ []) (bare []) (λ h. refl)

main-Idle_example :
    After
      (λ _ d'. Idle d'.info)
      (main none true (codes "list\n" ∷ codes "c\n" ∷ []) (bare (ended 0 ∷ [])))
main-Idle_example =
    main-Idle none true (codes "list\n" ∷ codes "c\n" ∷ []) (bare (ended 0 ∷ [])) (λ h. refl)
