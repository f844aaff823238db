-- ===== src/Sdb/Show.antt =====
-- dump, disasm and help of hw4/sdb.cpp.
use nctu_unix_programming.Base.{
  ℕ, zero, suc, ◌+◌, ◌%◌, Option, none, some, List, [], ◌∷◌, ◌++◌, ◌==◌, if◌then◌else◌, take,
}
use nctu_unix_programming.Sdb.Kernel.{Kernel}
use nctu_unix_programming.Monad.{pure, ◌>>=◌, ◌>>◌, get}
use nctu_unix_programming.Sdb.Word.{word_size, bytes_of, hex_to_char}
use nctu_unix_programming.Sdb.State.{
  Instruction1, Sdb, text, dump_line, is_running, say, print_instruction,
}

-- The instructions from the first one at an address on.
unfoldable pub from_address : List Instruction1 → ℕ → Option (List Instruction1)
from_address [] addr = none
from_address (i ∷ is) addr = if i.addr == addr then some (i ∷ is) else from_address is addr

module _ {K : Kernel} where
  -- The rounds of dump: each prints two words. There is no test of the state.
  unfoldable pub dump_rounds : ℕ → ℕ → Sdb K (Unit {0})
  dump_rounds zero addr = pure tt
  dump_rounds (suc n) addr = do
    d ← get
    let second = (addr + 8) % word_size
    let code1 = K.peek d.world d.info.pid addr
    let code2 = K.peek d.world d.info.pid second
    say (dump_line addr (bytes_of code1 ++ bytes_of code2) (hex_to_char code1 ++ hex_to_char code2))
    dump_rounds n ((second + 8) % word_size)

  unfoldable pub dump : ℕ → Sdb K (Unit {0})
  unfolding dump_rounds
  dump start_addr = dump_rounds 5 start_addr

  unfoldable pub print_instructions : List Instruction1 → Sdb K (Unit {0})
  print_instructions [] = pure tt
  print_instructions (i ∷ is) = do print_instruction i; print_instructions is

  unfoldable pub disasm : ℕ → Sdb K (Unit {0})
  unfolding from_address print_instructions
  disasm addr d =
      if is_running d.info.state
      then (if K.cs_open d.world
          then elim (from_address d.orig_instructions addr) [
            | none ↦ say (text "**error addr given.\n") d
            | some is ↦ print_instructions (take 10 is) d
          ]
          else say (text "** cs_open error.\n") d)
      else say (text "** state must be RUNNING.\n") d

  -- Its lines are one message here.
  unfoldable pub help : Sdb K (Unit {0})
  help = say (text "help")
