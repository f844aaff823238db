-- ===== src/Mini/Sys.antt =====
-- What hw3/libmini.c asks of the kernel: its system calls, and the memory of the process, which is a
-- part of the world; and the state of the library, which is errno.
use nctu_unix_programming.Base.{ℕ, Option}
use nctu_unix_programming.Base.Text.{Bytes}
use nctu_unix_programming.Monad.{M}
use nctu_unix_programming.Numbers.{ℤ}
use nctu_unix_programming.Mini.Sigset.{Sigset}

-- A system call with its arguments. A path is its text; the buffer of write is the bytes from its
-- pointer on; a buffer that the kernel fills in is its address.
pub data Call : Type 0 where
  read : ℤ → ℕ → ℤ → Call
  write : ℤ → (ℕ → ℕ) → ℤ → Call
  open_file : Bytes → ℤ → ℤ → Call
  close : ℕ → Call
  mmap : ℕ → ℤ → ℤ → ℤ → ℤ → ℤ → Call
  mprotect : ℕ → ℤ → ℤ → Call
  munmap : ℕ → ℤ → Call
  pipe : ℕ → Call
  dup : ℤ → Call
  dup2 : ℤ → ℤ → Call
  pause fork : Call
  getcwd : ℕ → ℤ → Call
  chdir rmdir unlink : Bytes → Call
  rename link : Bytes → Bytes → Call
  mkdir creat chmod : Bytes → ℤ → Call
  readlink : Bytes → ℕ → ℤ → Call
  chown : Bytes → ℤ → ℤ → Call
  umask setuid setgid : ℤ → Call
  gettimeofday : ℕ → ℕ → Call
  getuid getgid geteuid getegid : Call
  alarm : ℕ → Call

-- struct sigaction; a handler is its address.
pub record Action : Type 0 where
  pub sa_handler : ℕ
  pub sa_flags : ℕ
  pub sa_restorer : ℕ
  pub sa_mask : Sigset

pub record Sys : Type 1 where
  pub World : Type 0
  pub syscall : Call → World → ℤ × World
  -- nanosleep of some seconds: its result, and the seconds that it leaves in rem.
  pub nanosleep : ℕ → World → ℤ × ℕ × World
  -- rt_sigprocmask: how, the set if the pointer is not null, and the size; its result, and the mask
  -- that it stores through a pointer to an old set if it succeeds.
  pub rt_sigprocmask : ℤ → Option Sigset → ℕ → World → ℤ × Sigset × World
  -- rt_sigpending, and the set that it stores.
  pub rt_sigpending : ℕ → World → ℤ × Sigset × World
  -- rt_sigaction: the signal, the new action, and the size.
  pub rt_sigaction : ℤ → Action → ℕ → World → ℤ × World
  pub peek : World → ℕ → ℕ
  pub poke : World → ℕ → ℕ → World
  -- The address of sys_sigreturn.
  pub sigreturn : ℕ
  -- Variables that are read before they are set.
  pub unset_number : ℕ
  pub unset_action : Action

pub record Mini (S : Sys) : Type 0 where
  pub errno : ℤ
  pub world : S.World

abbrev pub MiniM : Sys → Type 0 → Type 0
MiniM S A = M (Mini S) A
