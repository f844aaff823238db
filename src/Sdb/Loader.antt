-- ===== src/Sdb/Loader.antt =====
-- load, start, run and get_orig_code of hw4/sdb.cpp: from a file to a stopped process whose text
-- has been disassembled.
pub mod Finishes
use nctu_unix_programming.Base.{
  ℕ, zero, suc, ◌+◌, ◌%◌, true, false, Option, none, some, [], ◌∷◌, ◌++◌, ltb, ◌==◌, if◌then◌else◌,
  take,
}
use nctu_unix_programming.Base.Text.{Bytes}
use nctu_unix_programming.Sdb.Kernel.{Kernel, Insn}
use nctu_unix_programming.Monad.{pure, ◌>>=◌, ◌>>◌, get, modify, halt, assertion, out_of_fuel}
use nctu_unix_programming.Sdb.Word.{word_size, bytes_of}
use nctu_unix_programming.Sdb.Status.{wif_stopped}
use nctu_unix_programming.Sdb.State.{
  RunState, ProgInfo, noload, loaded, running, Instruction1, Sdb, text, program_loaded,
  already_running, child_pid, is_loaded, is_noload, say, errquit, or_errquit, put_world,
}
use nctu_unix_programming.Sdb.Elf.{elf_read}
use nctu_unix_programming.Sdb.Cont.{cont}

-- The bytes that `disassemble` reads at `ptr`, word by word while `ptr < limit`, n words at most; the
-- rest of the buffer is zeros, also from the first word on that cannot be read.
unfoldable pub read_code : (K : Kernel) → K.World → ℕ → ℕ → ℕ → ℕ → Bytes
read_code K w pid limit zero ptr = []
read_code K w pid limit (suc n) ptr =
    let rest = read_code K w pid limit n ((ptr + 8) % word_size) in
    let zeros : Bytes = 0 ∷ 0 ∷ 0 ∷ 0 ∷ 0 ∷ 0 ∷ 0 ∷ 0 ∷ [] in
    let none_read = read_code K w pid 0 n ptr in
    if ltb ptr limit
    then (if K.peek_errno w pid ptr == 0
        then bytes_of (K.peek w pid ptr) ++ rest
        else zeros ++ none_read)
    else zeros ++ none_read

unfoldable pub code_at : (K : Kernel) → K.World → ℕ → ℕ → Bytes
unfolding read_code
code_at K w pid addr = read_code K w pid ((addr + 64) % word_size) 8 addr

abbrev pub to_instruction : ℕ → Insn → Instruction1
to_instruction addr i = record {
  addr = addr;
  bytes = take i.size i.bytes;
  size = i.size;
  opr = i.mnemonic;
  opnd = i.op_str;
}

module _ {K : Kernel} where
  -- The size of the instruction that was appended; `none` for the result -1.
  unfoldable pub disassemble : ℕ → ℕ → Sdb K (Option ℕ)
  unfolding code_at
  disassemble pid addr d = elim (K.cs_disasm (take 63 (code_at K d.world pid addr)) addr) [
    | some i ↦
        pure (some i.size)
          (record d { orig_instructions = d.orig_instructions ++ (to_instruction addr i ∷ []) })
    | none ↦ (do say (text "** cs_disasm error.\n"); pure none) d
  ]

  -- The loop of get_orig_code from `addr` to `end`.
  unfoldable pub disassemble_from : ℕ → ℕ → ℕ → ℕ → Sdb K (Unit {0})
  unfolding disassemble
  disassemble_from zero pid end addr d = halt out_of_fuel d
  disassemble_from (suc fuel) pid end addr d = elim (ltb addr end) [
    | false ↦ pure tt d
    | true ↦
        (do
          size ← disassemble pid addr
          elim size [
            | none ↦ pure tt
            | some n ↦ disassemble_from fuel pid end ((addr + n) % word_size)
          ])
          d
  ]

  unfoldable pub get_orig_code : ProgInfo → Sdb K (Unit {0})
  unfolding disassemble_from
  get_orig_code info d =
      if K.cs_open d.world
      then disassemble_from (suc info.size) info.pid ((info.entry + info.size) % word_size)
          info.entry d
      else say (text "** cs_open error.\n") d

  unfoldable pub load : Bytes → Sdb K (Unit {0})
  unfolding elf_read
  load path d =
      if is_noload d.info.state
      then (do
        info ← elf_read path
        say (program_loaded path info.entry)
        modify λ d. record d { info = record info { state = loaded; path = path } })
          d
      else say (text "** state must be NOT LOADED.\n") d

  -- The parent's side of start, from the fork on.
  unfoldable pub start_loaded : Sdb K (Unit {0})
  unfolding get_orig_code
  start_loaded d =
      (do
        (child, forked) ← or_errquit (K.spawn d.world d.info.path) "** fork error"
        let (done, status, w) = K.wait_pid forked child
        put_world w
        if done then pure tt else errquit "** waitpid error"
        if wif_stopped status then pure tt else halt assertion
        put_world (K.exit_kill w child)
        say (child_pid child)
        modify λ d. record d { info = record (d.info) { state = running; pid = child } }
        d ← get
        get_orig_code d.info)
        d

  unfoldable pub start : Sdb K (Unit {0})
  unfolding start_loaded
  start d =
      if is_loaded d.info.state then start_loaded d else say (text "** state must be LOADED.\n") d

  -- run, once the state is read.
  unfoldable pub run_in : RunState → Sdb K (Unit {0})
  unfolding start cont
  run_in running d = (do say (already_running d.info.path); cont) d
  run_in loaded d = (do start; cont) d
  run_in noload d = say (text "** state must be LOADED or RUNNING.\n") d

  unfoldable pub run : Sdb K (Unit {0})
  unfolding run_in
  run d = run_in d.info.state d
