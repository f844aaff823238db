-- ===== src/Mini/Jump.antt =====
-- setjmp, longjmp and the system call stubs of hw3/libmini64.asm, as instructions of a machine with the
-- registers and the instructions that this file uses.
pub mod Frame
pub mod Laws
pub mod Stubs
use nctu_unix_programming.Base.{ℕ, ◌+◌, ◌-◌, ◌%◌, ◌^◌, ◌==◌, if◌then◌else◌, List, [], ◌∷◌}

pub data Reg : Type 0 where
  rax rbx rcx rdx rsi rdi rbp rsp r10 r12 r13 r14 r15 : Reg

abbrev index : Reg → ℕ
index rax = 0
index rbx = 1
index rcx = 2
index rdx = 3
index rsi = 4
index rdi = 5
index rbp = 6
index rsp = 7
index r10 = 8
index r12 = 9
index r13 = 10
index r14 = 11
index r15 = 12

abbrev pub set_reg : Reg → ℕ → (Reg → ℕ) → Reg → ℕ
set_reg r v regs q = if index r == index q then v else regs q

-- `load r b o` is mov r, [b+o]; `store b o r` is mov [b+o], r; `imm r n` is mov r, n; `mov r q` is
-- mov r, q; `jmp b o` is jmp [b+o].
pub data Insn : Type 0 where
  push pop : Reg → Insn
  load : Reg → Reg → ℕ → Insn
  store : Reg → ℕ → Reg → Insn
  imm : Reg → ℕ → Insn
  mov : Reg → Reg → Insn
  syscall ret : Insn
  jmp : Reg → ℕ → Insn

-- The kernel: from the registers, memory and its own state, the result in rax, what it leaves in rcx,
-- and its state and memory after the call.
pub record Kernel : Type 1 where
  pub World : Type 0
  pub enter : (Reg → ℕ) → (ℕ → ℕ) → World → ℕ × ℕ × (ℕ → ℕ) × World

-- Registers of 64 bits; the words of 64 bits in memory, whose addresses are multiples of 8; and where a
-- jump went.
pub record Machine (K : Kernel) : Type 0 where
  pub regs : Reg → ℕ
  pub memory : ℕ → ℕ
  pub rip : ℕ
  pub world : K.World

abbrev pub wrap : ℕ → ℕ
wrap n = n % 2 ^ 64

unfoldable pub write : ℕ → ℕ → (ℕ → ℕ) → ℕ → ℕ
write a v memory b = if a == b then v else memory b

module _ {K : Kernel} where
  abbrev pub step : Insn → Machine K → Machine K
  step (push r) m =
      let rsp' = wrap (m.regs rsp + (2 ^ 64 - 8)) in
      record m { regs = set_reg rsp rsp' m.regs; memory = write rsp' (m.regs r) m.memory }
  step (pop r) m = record m {
    regs = set_reg r (m.memory (m.regs rsp)) (set_reg rsp (wrap (m.regs rsp + 8)) m.regs);
  }
  step (load r b o) m = record m { regs = set_reg r (m.memory (wrap (m.regs b + o))) m.regs }
  step (store b o r) m = record m { memory = write (wrap (m.regs b + o)) (m.regs r) m.memory }
  step (imm r n) m = record m { regs = set_reg r n m.regs }
  step (mov r q) m = record m { regs = set_reg r (m.regs q) m.regs }
  step syscall m =
      let (a, c, memory', w) = K.enter m.regs m.memory m.world in
      record m { regs = set_reg rcx c (set_reg rax a m.regs); memory = memory'; world = w }
  step ret m = record m {
    regs = set_reg rsp (wrap (m.regs rsp + 8)) m.regs;
    rip = m.memory (m.regs rsp);
  }
  step (jmp b o) m = record m { rip = m.memory (wrap (m.regs b + o)) }

  -- Instructions up to the first that leaves them.
  abbrev pub run : List Insn → Machine K → Machine K
  run [] m = m
  run (ret ∷ code) m = step ret m
  run (jmp b o ∷ code) m = step (jmp b o) m
  run (i ∷ code) m = run code (step i m)

-- gensys
unfoldable pub gensys : ℕ → List Insn
gensys n = push r10 ∷ mov r10 rcx ∷ imm rax n ∷ syscall ∷ pop r10 ∷ ret ∷ []

unfoldable pub setjmp : List Insn
setjmp =
    pop rsi
    ∷ store rdi 0 rbx
    ∷ store rdi 8 rsp
    ∷ push rsi
    ∷ store rdi 16 rbp
    ∷ store rdi 24 r12
    ∷ store rdi 32 r13
    ∷ store rdi 40 r14
    ∷ store rdi 48 r15
    ∷ store rdi 56 rsi
    ∷ push rdi
    ∷ imm rax 14
    ∷ imm rdi 0
    ∷ imm rsi 0
    ∷ imm rdx 0
    ∷ imm r10 32
    ∷ syscall
    ∷ pop rdi
    ∷ store rdi 64 rdx
    ∷ imm rax 0
    ∷ ret
    ∷ []

unfoldable pub longjmp : List Insn
longjmp =
    load rbx rdi 0
    ∷ load rsp rdi 8
    ∷ load rbp rdi 16
    ∷ load r12 rdi 24
    ∷ load r13 rdi 32
    ∷ load r14 rdi 40
    ∷ load r15 rdi 48
    ∷ push rdi
    ∷ push rsi
    ∷ imm rax 14
    ∷ load rsi rdi 64
    ∷ imm rdi 1
    ∷ imm rdx 0
    ∷ imm r10 32
    ∷ syscall
    ∷ pop rax
    ∷ pop rdi
    ∷ jmp rdi 56
    ∷ ret
    ∷ []
