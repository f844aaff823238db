-- ===== src/Logger/Libc.antt =====
-- What hw2/logger.cpp asks of the C library behind it: the real functions, realpath, the links under
-- /proc/self/fd, the environment, dprintf, and the memory of the program.
use nctu_unix_programming.Base.{ℕ, Bool, Option, List, String}
use nctu_unix_programming.Base.Text.{Bytes}
use nctu_unix_programming.Numbers.{ℤ}

-- A call of one of the functions, with its arguments. Pointers to streams and buffers are numbers.
pub data Call : Type 0 where
  chmod creat creat64 : Bytes → ℕ → Call
  chown : Bytes → ℕ → ℕ → Call
  remove : Bytes → Call
  -- The path, the flags, and the argument after them, if there is one.
  open_file open64 : Bytes → ℕ → ℕ → Call
  rename : Bytes → Bytes → Call
  write read : ℤ → ℕ → ℕ → Call
  close : ℤ → Call
  fread fwrite : ℕ → ℕ → ℕ → ℕ → Call
  fopen fopen64 : Bytes → Bytes → Call
  fclose : ℕ → Call
  tmpfile tmpfile64 : Call

pub data Field : Type 0 where
  str : Bytes → Field
  num : ℤ → Field

-- A line of the log: the function, what is printed of its arguments, and of its result.
pub record Line : Type 0 where
  pub function : String
  pub fields : List Field
  pub result : ℤ

pub record Libc : Type 1 where
  pub World : Type 0
  -- dlopen and dlsym find the real functions.
  pub loads : World → Bool
  -- A real function: what it returns, as a 64-bit number, and the world after it.
  pub call : Call → World → ℤ × World
  pub realpath : World → Bytes → Option Bytes
  -- The target of /proc/self/fd/N, as readlink puts it into a buffer of zeros.
  pub fd_link : World → ℤ → Bytes
  pub fileno : World → ℕ → ℤ
  pub getenv_output_fd : World → Option Bytes
  pub dprintf : World → ℤ → Line → World
  pub byte : World → ℕ → ℕ
