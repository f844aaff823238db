-- ===== src/Tests/Machine.antt =====
-- A machine on which the debugger can be run: processes with bytes and registers, and a list of what
-- waitpid is going to report.
use nctu_unix_programming.Base.{
  ℕ, zero, suc, ◌+◌, ◌*◌, ◌-◌, ◌%◌, ◌^◌, ◌<◌, ◌≡◌, refl, sym, ap, ◌∙◌, Bool, true, ◌&&◌, none, some,
  List, [], ◌∷◌, ltb, leb, ◌==◌, if◌then◌else◌, arith,
}
use mathlib.Core.Option.{some-injective}
use nctu_unix_programming.Base.Text.{codes}
use nctu_unix_programming.Sdb.Word.{byte_of}
use nctu_unix_programming.Sdb.Kernel.{Kernel, Insn, IsLawful}
use nctu_unix_programming.Sdb.Cont.Steps.{IsQuiet}

-- What waitpid reports: a status, and the registers of the program then.
pub record Event : Type 0 where
  pub status : ℕ
  pub regs : List ℕ

pub record Machine : Type 0 where
  pub bytes : ℕ → ℕ → ℕ
  pub regs : ℕ → List ℕ
  pub events : List Event

abbrev pub memory : Machine → ℕ → ℕ → ℕ
memory m p a = m.bytes p a % 256

abbrev pub word_at : Machine → ℕ → ℕ → ℕ
word_at m p a =
    memory m p (a + 0)
    + memory m p (a + 1) * 256
    + memory m p (a + 2) * 256 ^ 2
    + memory m p (a + 3) * 256 ^ 3
    + memory m p (a + 4) * 256 ^ 4
    + memory m p (a + 5) * 256 ^ 5
    + memory m p (a + 6) * 256 ^ 6
    + memory m p (a + 7) * 256 ^ 7

abbrev pub written : Machine → ℕ → ℕ → ℕ → Machine
written m p a v = record m {
  bytes = λ q b. if q == p && leb a b && ltb b (a + 8) then byte_of (b - a) v else m.bytes q b;
}

abbrev pub with_regs : Machine → ℕ → List ℕ → Machine
with_regs m p rs = record m { regs = λ q. if q == p then rs else m.regs q }

abbrev pub waited : Machine → ℕ → List Event → Bool × ℕ × Machine
waited m p [] = (true, 0, m)
waited m p (e ∷ es) = (true, e.status, record (with_regs m p e.regs) { events = es })

-- An instruction of one byte.
abbrev pub nop : Insn
nop = record { size = 1; mnemonic = codes "nop"; op_str = []; bytes = 0x90 ∷ [] }

abbrev pub toy : Kernel
toy = record {
  World = Machine;
  peek = word_at;
  peek_errno = λ m p a. 0;
  poke = λ m p a v. some (written m p a v);
  get_regs = λ m p. some (m.regs p);
  set_regs = λ m p rs. some (with_regs m p rs);
  single_step = λ m p. some m;
  resume = λ m p. some m;
  exit_kill = λ m p. m;
  wait_pid = λ m p. waited m p m.events;
  spawn = λ m path. some (7, m);
  read_file = λ m path. none;
  proc_maps = λ m p. none;
  cs_open = λ m. true;
  cs_disasm = λ code addr. some nop;
  indeterminate = 0;
}

pub word_at-byte :
    (m : Machine) (p a i : ℕ) → i < 8 → byte_of i (word_at m p a) ≡ memory m p (a + i)
word_at-byte m p a zero h = omega arith
word_at-byte m p a (suc zero) h = omega arith
word_at-byte m p a (suc (suc zero)) h = omega arith
word_at-byte m p a (suc (suc (suc zero))) h = omega arith
word_at-byte m p a (suc (suc (suc (suc zero)))) h = omega arith
word_at-byte m p a (suc (suc (suc (suc (suc zero))))) h = omega arith
word_at-byte m p a (suc (suc (suc (suc (suc (suc zero)))))) h = omega arith
word_at-byte m p a (suc (suc (suc (suc (suc (suc (suc zero))))))) h = omega arith
word_at-byte m p a (suc (suc (suc (suc (suc (suc (suc (suc i)))))))) h = absurd (omega arith)

pub memory-written :
    (m : Machine) (p a v q b : ℕ)
    → memory (written m p a v) q b
      ≡ (if q == p && leb a b && ltb b (a + 8) then byte_of (b - a) v else memory m q b)
memory-written m p a v q b = ground arith

pub with_regs-regs : (m : Machine) (p : ℕ) (rs : List ℕ) → (with_regs m p rs).regs p ≡ rs
with_regs-regs m p rs = ground arith

unfoldable pub toy-IsLawful : IsLawful toy
toy-IsLawful = record {
  byte = memory;
  peek-lt = λ m p a. omega arith;
  peek-byte = λ m p a i e h. word_at-byte m p a i h;
  peek_errno-poke = λ m m' p a v h. refl;
  byte-poke = λ m m' p a v q b h.
      ap (λ (x : Machine). memory x q b) (sym (some-injective _ _ h)) ∙ memory-written m p a v q b;
  get_regs-poke =
      λ m m' p a v q h. ap (λ (x : Machine). some (x.regs q)) (sym (some-injective _ _ h));
  get_regs-set_regs = λ m m' p rs h.
      ap (λ (x : Machine). some (x.regs p)) (sym (some-injective _ _ h))
      ∙ ap some (with_regs-regs m p rs);
  byte-set_regs =
      λ m m' p rs q b h. ap (λ (x : Machine). memory x q b) (sym (some-injective _ _ h));
}

waited-memory :
    (m : Machine) (p q x : ℕ) (es : List Event) → memory ((waited m p es).2) q x ≡ memory m q x
waited-memory m p q x [] = refl
waited-memory m p q x (e ∷ es) = refl

-- The addresses of the code, and its bytes.
abbrev pub code : ℕ → Bool
code x = leb 16 x && ltb x 32

abbrev pub prog : ℕ → ℕ
prog x = 0x90

pub toy-IsQuiet : IsQuiet toy toy-IsLawful code
unfolding toy-IsLawful
toy-IsQuiet = record {
  byte-single_step =
      λ m m' p q x h c. ap (λ (y : Machine). memory y q x) (sym (some-injective _ _ h));
  byte-resume = λ m m' p q x h c. ap (λ (y : Machine). memory y q x) (sym (some-injective _ _ h));
  byte-wait_pid = λ m p q x c. waited-memory m p q x m.events;
}

-- Registers that are zero, but for rip.
abbrev pub at_rip : ℕ → List ℕ
at_rip rip = 0 ∷ 0 ∷ 0 ∷ 0 ∷ 0 ∷ 0 ∷ 0 ∷ 0 ∷ 0 ∷ 0 ∷ 0 ∷ 0 ∷ 0 ∷ 0 ∷ 0 ∷ 0 ∷ rip ∷ 0 ∷ 0 ∷ 0 ∷ []

abbrev pub machine : List Event → Machine
machine es = record { bytes = λ p a. 0x90; regs = λ p. at_rip 16; events = es }
