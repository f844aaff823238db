-- ===== src/Sdb/Kernel.antt =====
-- What the debugger calls and does not implement: ptrace, waitpid, fork and exec, /proc, files, and
-- the Capstone disassembler. `World` is everything outside the debugger.
use nctu_unix_programming.Base.{
  ℕ, ◌+◌, ◌-◌, ◌<◌, ◌≡◌, Bool, ◌&&◌, Option, some, List, leb, ltb, ◌==◌, if◌then◌else◌,
}
use nctu_unix_programming.Base.Text.{Bytes}
use nctu_unix_programming.Sdb.Word.{word_size, byte_of}

-- What the code reads of a cs_insn.
pub record Insn : Type 0 where
  pub size : ℕ
  pub mnemonic : Bytes
  pub op_str : Bytes
  pub bytes : Bytes

pub record Kernel : Type 1 where
  pub World : Type 0
  -- PTRACE_PEEKTEXT: the word at an address of a process (all ones on failure), and errno after it.
  pub peek : World → ℕ → ℕ → ℕ
  pub peek_errno : World → ℕ → ℕ → ℕ
  -- PTRACE_POKETEXT, GETREGS, SETREGS, SINGLESTEP, CONT: `none` is a failure, which changes nothing.
  pub poke : World → ℕ → ℕ → ℕ → Option World
  pub get_regs : World → ℕ → Option (List ℕ)
  pub set_regs : World → ℕ → List ℕ → Option World
  pub single_step : World → ℕ → Option World
  pub resume : World → ℕ → Option World
  -- PTRACE_SETOPTIONS with PTRACE_O_EXITKILL.
  pub exit_kill : World → ℕ → World
  -- waitpid: whether it succeeded, what its status variable holds then, and the world after it.
  pub wait_pid : World → ℕ → Bool × ℕ × World
  -- fork, where the child calls PTRACE_TRACEME and execlp on a path: the pid of the child.
  pub spawn : World → Bytes → Option (ℕ × World)
  -- fopen and the bytes of the file; fopen of /proc/PID/maps and its lines as fgets gives them.
  pub read_file : World → Bytes → Option Bytes
  pub proc_maps : World → ℕ → Option (List Bytes)
  -- cs_open succeeds; the first instruction that cs_disasm finds in a buffer at an address.
  pub cs_open : World → Bool
  pub cs_disasm : Bytes → ℕ → Option Insn
  -- The value of a variable that the code reads before it is set.
  pub indeterminate : ℕ

-- ptrace as its manual documents it: memory is bytes, a word is eight of them, and requests on
-- registers and on memory do not interfere.
pub record IsLawful (K : Kernel) : Type 0 where
  pub byte : K.World → ℕ → ℕ → ℕ
  pub peek-lt : (w : K.World) (p a : ℕ) → K.peek w p a < word_size
  -- A word that can be read is the eight bytes from its address on, the low byte first.
  pub peek-byte :
      (w : K.World) (p a i : ℕ)
      → K.peek_errno w p a ≡ 0
      → i < 8
      → byte_of i (K.peek w p a) ≡ byte w p (a + i)
  -- A word that can be written can be read.
  pub peek_errno-poke :
      (w w' : K.World) (p a v : ℕ) → K.poke w p a v ≡ some w' → K.peek_errno w p a ≡ 0
  pub byte-poke :
      (w w' : K.World) (p a v q b : ℕ)
      → K.poke w p a v ≡ some w'
      → byte w' q b ≡ (if q == p && leb a b && ltb b (a + 8) then byte_of (b - a) v else byte w q b)
  pub get_regs-poke :
      (w w' : K.World) (p a v q : ℕ) → K.poke w p a v ≡ some w' → K.get_regs w' q ≡ K.get_regs w q
  pub get_regs-set_regs :
      (w w' : K.World) (p : ℕ) (rs : List ℕ)
      → K.set_regs w p rs ≡ some w'
      → K.get_regs w' p ≡ some rs
  pub byte-set_regs :
      (w w' : K.World) (p : ℕ) (rs : List ℕ) (q b : ℕ)
      → K.set_regs w p rs ≡ some w'
      → byte w' q b ≡ byte w q b
