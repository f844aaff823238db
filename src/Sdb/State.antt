-- ===== src/Sdb/State.antt =====
-- The debugger's state: prog_info, the globals of sdb.cpp, and what it has written to stderr.
use nctu_unix_programming.Base.{
  ◌≡◌, ◌≢◌, refl, arith, ℕ, Bool, true, false, Option, none, some, List, [], ◌∷◌, String, get_or,
}
use nctu_unix_programming.Base.Text.{Bytes}
use nctu_unix_programming.Sdb.Kernel.{Kernel}
use nctu_unix_programming.Monad.{M, failure, pure, ◌>>=◌, ◌>>◌, get, modify, halt}
use nctu_unix_programming.Numbers.{ℤ}

-- NOLOAD, LOADED, RUNNING.
pub data RunState : Type 0 where
  noload loaded running : RunState

pub record Breakpoint : Type 0 where
  pub addr : ℕ
  pub orig_patch : ℕ

-- `{}`
abbrev pub no_breakpoint : Breakpoint
no_breakpoint = record { addr = 0; orig_patch = 0 }

pub record ProgInfo : Type 0 where
  pub state : RunState
  pub pid : ℕ
  pub entry : ℕ
  pub size : ℕ
  pub path : Bytes
  pub bp_vec : List Breakpoint

-- `{}`
abbrev pub no_program : ProgInfo
no_program = record { state = noload; pid = 0; entry = 0; size = 0; path = []; bp_vec = [] }

pub record Instruction1 : Type 0 where
  pub addr : ℕ
  pub bytes : Bytes
  pub size : ℕ
  pub opr : Bytes
  pub opnd : Bytes

-- One call of fprintf or perror: its fixed text, or the values that it prints.
pub data Message : Type 0 where
  text : String → Message
  perror : String → Message
  instruction : Instruction1 → Message
  child_signalled : ℕ → ℕ → Message
  child_exited : ℕ → ℕ → Message
  breakpoint_deleted : ℤ → Message
  breakpoint_missing : ℤ → Message
  breakpoint_line : ℕ → ℕ → Message
  program_loaded : Bytes → ℕ → Message
  already_running : Bytes → Message
  cannot_open : Bytes → Message
  cannot_read : Message
  child_pid : ℕ → Message
  reg_missing : Bytes → Message
  reg_value : Bytes → ℕ → Message
  reg_line : List (String × ℕ) → Message
  dump_line : ℕ → Bytes → Bytes → Message
  map_line : ℕ → ℕ → Bytes → Bytes → Message

pub record Debugger (K : Kernel) : Type 0 where
  pub info : ProgInfo
  pub bp_restore : Breakpoint
  pub orig_instructions : List Instruction1
  pub world : K.World
  -- Newest first.
  pub err : List Message

abbrev pub Sdb : Kernel → Type 0 → Type 0
Sdb K A = M (Debugger K) A

abbrev pub is_running : RunState → Bool
is_running running = true
is_running _ = false

abbrev pub is_loaded : RunState → Bool
is_loaded loaded = true
is_loaded _ = false

abbrev pub is_noload : RunState → Bool
is_noload noload = true
is_noload _ = false

module _ {K : Kernel} where
  abbrev pub say : Message → Sdb K (Unit {0})
  say m = modify λ d. record d { err = m ∷ d.err }

  -- errquit: perror, then exit(-1).
  abbrev pub errquit : {A : Type 0} → String → Sdb K A
  errquit msg = do say (perror msg); halt failure

  -- A request whose failure is checked.
  abbrev pub or_errquit : {A : Type 0} → Option A → String → Sdb K A
  or_errquit none msg = errquit msg
  or_errquit (some a) msg = pure a

  abbrev pub put_world : K.World → Sdb K (Unit {0})
  put_world w = modify λ d. record d { world = w }

  abbrev pub poke : ℕ → ℕ → ℕ → Sdb K (Unit {0})
  poke pid addr word = do
    d ← get
    w ← or_errquit (K.poke d.world pid addr word) "ptrace(POKETEXT)"
    put_world w

  abbrev pub get_regs : Sdb K (List ℕ)
  get_regs = do d ← get; or_errquit (K.get_regs d.world d.info.pid) "ptrace(PTRACE_GETREGS)"

-- user_regs_struct as an array of words: the place of rip.
abbrev pub rip_of : List ℕ → ℕ
rip_of regs = get_or regs 16 0

-- print_instruction; its pointer is never null.
abbrev pub print_instruction : {K : Kernel} → Instruction1 → Sdb K (Unit {0})
print_instruction i = say (instruction i)

pub is_running_of : (st : RunState) → st ≡ running → is_running st ≡ true
is_running_of st h = ground arith

pub is_running_ne : (st : RunState) → st ≢ running → is_running st ≡ false
is_running_ne noload h = refl
is_running_ne loaded h = refl
is_running_ne running h = absurd (h refl)
