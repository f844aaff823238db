-- ===== src/Sdb/Regs.antt =====
-- print_reg, print_all_regs and set of hw4/sdb.cpp, and the table init_regs_offset of hw4/sdb.h.
pub mod Laws
use nctu_unix_programming.Base.{ℕ, Option, none, some, List, [], ◌∷◌, if◌then◌else◌, get_or, set}
use nctu_unix_programming.Base.Text.{Bytes, codes, same}
use nctu_unix_programming.Sdb.Kernel.{Kernel}
use nctu_unix_programming.Monad.{pure, ◌>>=◌, ◌>>◌}
use nctu_unix_programming.Sdb.State.{
  Sdb, text, reg_missing, reg_value, reg_line, is_running, say, get_regs, put_world,
}

-- The names, with their places in user_regs_struct.
abbrev pub regs_offset : List (Bytes × ℕ)
regs_offset =
    (codes "r15", 0)
    ∷ (codes "r14", 1)
    ∷ (codes "r13", 2)
    ∷ (codes "r12", 3)
    ∷ (codes "rbp", 4)
    ∷ (codes "rbx", 5)
    ∷ (codes "r11", 6)
    ∷ (codes "r10", 7)
    ∷ (codes "r9", 8)
    ∷ (codes "r8", 9)
    ∷ (codes "rax", 10)
    ∷ (codes "rcx", 11)
    ∷ (codes "rdx", 12)
    ∷ (codes "rsi", 13)
    ∷ (codes "rdi", 14)
    ∷ (codes "rip", 16)
    ∷ (codes "flags", 18)
    ∷ (codes "rsp", 19)
    ∷ []

-- map::find
unfoldable pub find_offset : Bytes → List (Bytes × ℕ) → Option ℕ
find_offset reg [] = none
find_offset reg ((name, offset) ∷ table) =
    if same name reg then some offset else find_offset reg table

unfoldable pub offset_of : Bytes → Option ℕ
unfolding find_offset
offset_of reg = find_offset reg regs_offset

module _ {K : Kernel} where
  unfoldable pub print_reg : Bytes → Sdb K (Unit {0})
  print_reg reg d =
      if is_running d.info.state
      then (do
        regs ← get_regs
        elim (offset_of reg) [
          | none ↦ say (reg_missing reg)
          | some offset ↦ say (reg_value reg (get_or regs offset 0))
        ])
          d
      else say (text "** state must be RUNNING.\n") d

  -- The five lines of print_all_regs, as the code pairs names and places.
  unfoldable pub print_all_regs : Sdb K (Unit {0})
  print_all_regs d =
      if is_running d.info.state
      then (do
        ptr ← get_regs
        say (
            reg_line (
              ("RAX", get_or ptr 10 0)
              ∷ ("RBX", get_or ptr 4 0)
              ∷ ("RCX", get_or ptr 11 0)
              ∷ ("RDX", get_or ptr 12 0)
              ∷ []))
        say (
            reg_line (
              ("R8", get_or ptr 9 0)
              ∷ ("R9", get_or ptr 8 0)
              ∷ ("R10", get_or ptr 7 0)
              ∷ ("R11", get_or ptr 6 0)
              ∷ []))
        say (
            reg_line (
              ("R12", get_or ptr 3 0)
              ∷ ("R13", get_or ptr 2 0)
              ∷ ("R14", get_or ptr 1 0)
              ∷ ("R15", get_or ptr 0 0)
              ∷ []))
        say (
            reg_line (
              ("RDI", get_or ptr 14 0)
              ∷ ("RSI", get_or ptr 13 0)
              ∷ ("RBP", get_or ptr 4 0)
              ∷ ("RSP", get_or ptr 19 0)
              ∷ []))
        say (reg_line (("RIP", get_or ptr 16 0) ∷ ("FLAGS", get_or ptr 18 0) ∷ [])))
          d
      else say (text "** state must be RUNNING.\n") d

  -- The result of SETREGS is ignored: a failure changes nothing.
  abbrev try_set_regs : List ℕ → Sdb K (Unit {0})
  try_set_regs regs d = elim (K.set_regs d.world d.info.pid regs) [
    | none ↦ pure tt d
    | some w ↦ put_world w d
  ]

  -- `val` is the pattern of a long long.
  unfoldable pub set_reg : Bytes → ℕ → Sdb K (Unit {0})
  set_reg reg val d =
      if is_running d.info.state
      then (do
        regs ← get_regs
        elim (offset_of reg) [
          | none ↦ say (reg_missing reg)
          | some offset ↦ try_set_regs (set regs offset val)
        ])
          d
      else say (text "** program must be RUNNING.\n") d
