-- ===== src/Mini/Wrappers.antt =====
-- The wrappers of hw3/libmini.c, and open of hw3/libmini64.asm: a system call, and its result in
-- errno and in the value that is returned.
pub mod Contract
use nctu_unix_programming.Base.{ℕ, zero, suc, ◌%◌, ◌^◌, if◌then◌else◌, Bool, true, false}
use nctu_unix_programming.Base.Text.{Bytes}
use nctu_unix_programming.Monad.{Outcome, pure, stop, exited, ◌>>=◌, ◌>>◌}
use nctu_unix_programming.Numbers.{ℤ, pos, negsuc, to_int, to_u64}
use nctu_unix_programming.Mini.Sys
use nctu_unix_programming.Mini.Sys.{Sys, Mini, MiniM, Call}

-- (unsigned int) ret
abbrev pub to_uint : ℤ → ℤ
to_uint z = pos (to_u64 z % 2 ^ 32)

-- (ssize_t) ret, and the pointer types: no digit is lost.
abbrev pub to_word : ℤ → ℤ
to_word z = z

module _ {S : Sys} where
  abbrev set_errno : ℤ → MiniM S (Unit {0})
  set_errno e s = pure tt (record s { errno = e })

  abbrev pub sys : Call → MiniM S ℤ
  sys c s = (let (ret, w) = S.syscall c s.world in pure ret (record s { world = w }))

  -- WRAPPER_RETval: `cast` is what the type of the macro and that of the function make of a long.
  unfoldable pub wrapper_ret_val : (ℤ → ℤ) → ℤ → MiniM S ℤ
  wrapper_ret_val cast (pos n) = do set_errno (pos 0); pure (cast (pos n))
  wrapper_ret_val cast (negsuc n) = do
    set_errno (pos 0)
    set_errno (pos (suc n))
    pure (cast (negsuc 0))

  -- WRAPPER_RETptr
  unfoldable pub wrapper_ret_ptr : ℤ → MiniM S ℤ
  wrapper_ret_ptr (pos n) = do set_errno (pos 0); pure (pos n)
  wrapper_ret_ptr (negsuc n) = do set_errno (pos 0); set_errno (pos (suc n)); pure (pos 0)

  unfoldable pub read : ℤ → ℕ → ℤ → MiniM S ℤ
  unfolding wrapper_ret_val
  read fd buf count = do ret ← sys (Sys.read fd buf count); wrapper_ret_val to_word ret

  unfoldable pub write : ℤ → (ℕ → ℕ) → ℤ → MiniM S ℤ
  unfolding wrapper_ret_val
  write fd buf count = do ret ← sys (Sys.write fd buf count); wrapper_ret_val to_word ret

  -- open, in assembly.
  unfoldable pub open_file : Bytes → ℤ → ℤ → MiniM S ℤ
  unfolding wrapper_ret_val
  open_file filename flags mode = do
    ret ← sys (Sys.open_file filename flags mode)
    wrapper_ret_val to_int ret

  unfoldable pub close : ℕ → MiniM S ℤ
  unfolding wrapper_ret_val
  close fd = do ret ← sys (Sys.close fd); wrapper_ret_val to_int ret

  unfoldable pub mmap : ℕ → ℤ → ℤ → ℤ → ℤ → ℤ → MiniM S ℤ
  unfolding wrapper_ret_ptr
  mmap addr len prot flags fd off = do
    ret ← sys (Sys.mmap addr len prot flags fd off)
    wrapper_ret_ptr ret

  unfoldable pub mprotect : ℕ → ℤ → ℤ → MiniM S ℤ
  unfolding wrapper_ret_val
  mprotect addr len prot = do ret ← sys (Sys.mprotect addr len prot); wrapper_ret_val to_int ret

  unfoldable pub munmap : ℕ → ℤ → MiniM S ℤ
  unfolding wrapper_ret_val
  munmap addr len = do ret ← sys (Sys.munmap addr len); wrapper_ret_val to_int ret

  unfoldable pub pipe : ℕ → MiniM S ℤ
  unfolding wrapper_ret_val
  pipe filedes = do ret ← sys (Sys.pipe filedes); wrapper_ret_val to_int ret

  unfoldable pub dup : ℤ → MiniM S ℤ
  unfolding wrapper_ret_val
  dup filedes = do ret ← sys (Sys.dup filedes); wrapper_ret_val to_int ret

  unfoldable pub dup2 : ℤ → ℤ → MiniM S ℤ
  unfolding wrapper_ret_val
  dup2 oldfd newfd = do ret ← sys (Sys.dup2 oldfd newfd); wrapper_ret_val to_int ret

  unfoldable pub pause : MiniM S ℤ
  unfolding wrapper_ret_val
  pause = do ret ← sys Sys.pause; wrapper_ret_val to_int ret

  unfoldable pub fork : MiniM S ℤ
  unfolding wrapper_ret_val
  fork = do ret ← sys Sys.fork; wrapper_ret_val to_int ret

  unfoldable pub getcwd : ℕ → ℤ → MiniM S ℤ
  unfolding wrapper_ret_ptr
  getcwd buf size = do ret ← sys (Sys.getcwd buf size); wrapper_ret_ptr ret

  unfoldable pub chdir : Bytes → MiniM S ℤ
  unfolding wrapper_ret_val
  chdir pathname = do ret ← sys (Sys.chdir pathname); wrapper_ret_val to_int ret

  unfoldable pub rename : Bytes → Bytes → MiniM S ℤ
  unfolding wrapper_ret_val
  rename oldname newname = do ret ← sys (Sys.rename oldname newname); wrapper_ret_val to_int ret

  unfoldable pub mkdir : Bytes → ℤ → MiniM S ℤ
  unfolding wrapper_ret_val
  mkdir pathname mode = do ret ← sys (Sys.mkdir pathname mode); wrapper_ret_val to_int ret

  unfoldable pub rmdir : Bytes → MiniM S ℤ
  unfolding wrapper_ret_val
  rmdir pathname = do ret ← sys (Sys.rmdir pathname); wrapper_ret_val to_int ret

  unfoldable pub creat : Bytes → ℤ → MiniM S ℤ
  unfolding wrapper_ret_val
  creat pathname mode = do ret ← sys (Sys.creat pathname mode); wrapper_ret_val to_int ret

  unfoldable pub link : Bytes → Bytes → MiniM S ℤ
  unfolding wrapper_ret_val
  link oldname newname = do ret ← sys (Sys.link oldname newname); wrapper_ret_val to_int ret

  unfoldable pub unlink : Bytes → MiniM S ℤ
  unfolding wrapper_ret_val
  unlink pathname = do ret ← sys (Sys.unlink pathname); wrapper_ret_val to_int ret

  unfoldable pub readlink : Bytes → ℕ → ℤ → MiniM S ℤ
  unfolding wrapper_ret_val
  readlink path buf bufsz = do ret ← sys (Sys.readlink path buf bufsz); wrapper_ret_val to_word ret

  unfoldable pub chmod : Bytes → ℤ → MiniM S ℤ
  unfolding wrapper_ret_val
  chmod filename mode = do ret ← sys (Sys.chmod filename mode); wrapper_ret_val to_int ret

  unfoldable pub chown : Bytes → ℤ → ℤ → MiniM S ℤ
  unfolding wrapper_ret_val
  chown filename user group = do
    ret ← sys (Sys.chown filename user group)
    wrapper_ret_val to_int ret

  unfoldable pub umask : ℤ → MiniM S ℤ
  unfolding wrapper_ret_val
  umask mask = do ret ← sys (Sys.umask mask); wrapper_ret_val to_int ret

  unfoldable pub gettimeofday : ℕ → ℕ → MiniM S ℤ
  unfolding wrapper_ret_val
  gettimeofday tv tz = do ret ← sys (Sys.gettimeofday tv tz); wrapper_ret_val to_int ret

  unfoldable pub getuid : MiniM S ℤ
  unfolding wrapper_ret_val
  getuid = do ret ← sys Sys.getuid; wrapper_ret_val to_int ret

  unfoldable pub getgid : MiniM S ℤ
  unfolding wrapper_ret_val
  getgid = do ret ← sys Sys.getgid; wrapper_ret_val to_int ret

  unfoldable pub setuid : ℤ → MiniM S ℤ
  unfolding wrapper_ret_val
  setuid uid = do ret ← sys (Sys.setuid uid); wrapper_ret_val to_int ret

  unfoldable pub setgid : ℤ → MiniM S ℤ
  unfolding wrapper_ret_val
  setgid gid = do ret ← sys (Sys.setgid gid); wrapper_ret_val to_int ret

  unfoldable pub geteuid : MiniM S ℤ
  unfolding wrapper_ret_val
  geteuid = do ret ← sys Sys.geteuid; wrapper_ret_val to_int ret

  unfoldable pub getegid : MiniM S ℤ
  unfolding wrapper_ret_val
  getegid = do ret ← sys Sys.getegid; wrapper_ret_val to_int ret

  unfoldable pub alarm : ℕ → MiniM S ℤ
  unfolding wrapper_ret_val
  alarm seconds = do ret ← sys (Sys.alarm seconds); wrapper_ret_val to_uint ret

  -- The wrapper of a system call.
  unfoldable pub wrapped : Call → MiniM S ℤ
  unfolding read write open_file close mmap mprotect munmap pipe dup dup2 pause fork getcwd chdir
      rename mkdir rmdir creat link unlink readlink chmod chown umask gettimeofday getuid getgid
      setuid setgid geteuid getegid alarm
  wrapped (Sys.read fd buf count) = read fd buf count
  wrapped (Sys.write fd buf count) = write fd buf count
  wrapped (Sys.open_file filename flags mode) = open_file filename flags mode
  wrapped (Sys.close fd) = close fd
  wrapped (Sys.mmap addr len prot flags fd off) = mmap addr len prot flags fd off
  wrapped (Sys.mprotect addr len prot) = mprotect addr len prot
  wrapped (Sys.munmap addr len) = munmap addr len
  wrapped (Sys.pipe filedes) = pipe filedes
  wrapped (Sys.dup filedes) = dup filedes
  wrapped (Sys.dup2 oldfd newfd) = dup2 oldfd newfd
  wrapped Sys.pause = pause
  wrapped Sys.fork = fork
  wrapped (Sys.getcwd buf size) = getcwd buf size
  wrapped (Sys.chdir pathname) = chdir pathname
  wrapped (Sys.rename oldname newname) = rename oldname newname
  wrapped (Sys.mkdir pathname mode) = mkdir pathname mode
  wrapped (Sys.rmdir pathname) = rmdir pathname
  wrapped (Sys.creat pathname mode) = creat pathname mode
  wrapped (Sys.link oldname newname) = link oldname newname
  wrapped (Sys.unlink pathname) = unlink pathname
  wrapped (Sys.readlink path buf bufsz) = readlink path buf bufsz
  wrapped (Sys.chmod filename mode) = chmod filename mode
  wrapped (Sys.chown filename user group) = chown filename user group
  wrapped (Sys.umask mask) = umask mask
  wrapped (Sys.gettimeofday tv tz) = gettimeofday tv tz
  wrapped Sys.getuid = getuid
  wrapped Sys.getgid = getgid
  wrapped (Sys.setuid uid) = setuid uid
  wrapped (Sys.setgid gid) = setgid gid
  wrapped Sys.geteuid = geteuid
  wrapped Sys.getegid = getegid
  wrapped (Sys.alarm seconds) = alarm seconds

  -- exit: the system call does not return.
  unfoldable pub exit : ℤ → MiniM S (Unit {0})
  exit error_code s = stop (exited error_code) s
