-- ===== src/Mini/Wrappers/Contract.antt =====
-- The wrappers of hw3/libmini.c against what POSIX says of errno and of the value returned.
use nctu_unix_programming.Base.{ℕ, suc, ◌<◌, ◌^◌, ◌-◌, ◌≡◌, refl, arith}
use nctu_unix_programming.Monad.{ok}
use nctu_unix_programming.Numbers.{ℤ, pos, negsuc, to_int}
use nctu_unix_programming.Mini.Sys
use nctu_unix_programming.Mini.Sys.{Sys, Mini, Call}
use nctu_unix_programming.Mini.Wrappers.{
  to_uint, to_word, wrapped, wrapper_ret_val, wrapper_ret_ptr,
}

-- What a wrapper returns for an error: -1, the null pointer, or -1 as an unsigned int.
abbrev pub failed : Call → ℤ
failed (Sys.mmap a l p f d o) = pos 0
failed (Sys.getcwd b n) = pos 0
failed (Sys.alarm n) = pos (2 ^ 32 - 1)
failed c = negsuc 0

-- The results that the return type of a wrapper can hold, and the errors of the kernel.
abbrev pub limit : Call → ℕ
limit (Sys.read d b n) = 2 ^ 63
limit (Sys.write d b n) = 2 ^ 63
limit (Sys.readlink p b n) = 2 ^ 63
limit (Sys.mmap a l p f d o) = 2 ^ 63
limit (Sys.getcwd b n) = 2 ^ 63
limit (Sys.alarm n) = 2 ^ 32
limit c = 2 ^ 31

abbrev pub Fits : Call → ℤ → Type 0
Fits c (pos n) = n < limit c
Fits c (negsuc n) = n < 4095

abbrev pub result : Call → ℤ → ℤ
result c (pos n) = pos n
result c (negsuc n) = failed c

abbrev pub error : ℤ → ℤ
error (pos n) = pos 0
error (negsuc n) = pos (suc n)

to_int_fits : (n : ℕ) → n < 2 ^ 31 → to_int (pos n) ≡ pos n
to_int_fits n h = ground arith

to_uint_fits : (n : ℕ) → n < 2 ^ 32 → to_uint (pos n) ≡ pos n
to_uint_fits n h = ground arith

module _ {S : Sys} where
  int_fits :
      (r : ℤ) (s : Mini S)
      → Fits Sys.pause r
      → wrapper_ret_val to_int r s ≡ ok (result Sys.pause r) (record s { errno = error r })
  unfolding wrapper_ret_val
  int_fits (pos n) s h = rw (to_int_fits n h)
  int_fits (negsuc n) s h = refl

  word_fits :
      (r : ℤ) (s : Mini S)
      → wrapper_ret_val to_word r s ≡ ok (result Sys.pause r) (record s { errno = error r })
  unfolding wrapper_ret_val
  word_fits (pos n) s = refl
  word_fits (negsuc n) s = refl

  uint_fits :
      (r : ℤ) (s : Mini S)
      → Fits (Sys.alarm 0) r
      → wrapper_ret_val to_uint r s ≡ ok (result (Sys.alarm 0) r) (record s { errno = error r })
  unfolding wrapper_ret_val
  uint_fits (pos n) s h = rw (to_uint_fits n h)
  uint_fits (negsuc n) s h = refl

  ptr_fits :
      (r : ℤ) (s : Mini S)
      → wrapper_ret_ptr r s ≡ ok (result (Sys.getcwd 0 (pos 0)) r) (record s { errno = error r })
  unfolding wrapper_ret_ptr
  ptr_fits (pos n) s = refl
  ptr_fits (negsuc n) s = refl

  -- The kernel's result, and the state after the call.
  abbrev ret : Call → Mini S → ℤ
  ret c s = (S.syscall c s.world).0

  abbrev after : Call → Mini S → Mini S
  after c s = record s { world = (S.syscall c s.world).1 }

  -- Where the kernel's result is an error above -4096, or a number that the return type can hold: an
  -- error gives the failure value of the wrapper and is stored in errno, any other result is returned
  -- as it is and errno is set to 0, and nothing else changes but what the kernel changed.
  pub wrapped-Fits :
      (c : Call) (s : Mini S)
      → Fits c ((S.syscall c s.world).0)
      → let (r, w) = S.syscall c s.world in
        wrapped c s ≡ ok (result c r) (record s { errno = error r; world = w })
  unfolding wrapped
  wrapped-Fits (Sys.read a b c) s h = word_fits (ret (Sys.read a b c) s) (after (Sys.read a b c) s)
  wrapped-Fits (Sys.write a b c) s h =
      word_fits (ret (Sys.write a b c) s) (after (Sys.write a b c) s)
  wrapped-Fits (Sys.open_file a b c) s h =
      int_fits (ret (Sys.open_file a b c) s) (after (Sys.open_file a b c) s) h
  wrapped-Fits (Sys.close a) s h = int_fits (ret (Sys.close a) s) (after (Sys.close a) s) h
  wrapped-Fits (Sys.mmap a b c d e f) s h =
      ptr_fits (ret (Sys.mmap a b c d e f) s) (after (Sys.mmap a b c d e f) s)
  wrapped-Fits (Sys.mprotect a b c) s h =
      int_fits (ret (Sys.mprotect a b c) s) (after (Sys.mprotect a b c) s) h
  wrapped-Fits (Sys.munmap a b) s h = int_fits (ret (Sys.munmap a b) s) (after (Sys.munmap a b) s) h
  wrapped-Fits (Sys.pipe a) s h = int_fits (ret (Sys.pipe a) s) (after (Sys.pipe a) s) h
  wrapped-Fits (Sys.dup a) s h = int_fits (ret (Sys.dup a) s) (after (Sys.dup a) s) h
  wrapped-Fits (Sys.dup2 a b) s h = int_fits (ret (Sys.dup2 a b) s) (after (Sys.dup2 a b) s) h
  wrapped-Fits Sys.pause s h = int_fits (ret Sys.pause s) (after Sys.pause s) h
  wrapped-Fits Sys.fork s h = int_fits (ret Sys.fork s) (after Sys.fork s) h
  wrapped-Fits (Sys.getcwd a b) s h = ptr_fits (ret (Sys.getcwd a b) s) (after (Sys.getcwd a b) s)
  wrapped-Fits (Sys.chdir a) s h = int_fits (ret (Sys.chdir a) s) (after (Sys.chdir a) s) h
  wrapped-Fits (Sys.rename a b) s h = int_fits (ret (Sys.rename a b) s) (after (Sys.rename a b) s) h
  wrapped-Fits (Sys.mkdir a b) s h = int_fits (ret (Sys.mkdir a b) s) (after (Sys.mkdir a b) s) h
  wrapped-Fits (Sys.rmdir a) s h = int_fits (ret (Sys.rmdir a) s) (after (Sys.rmdir a) s) h
  wrapped-Fits (Sys.creat a b) s h = int_fits (ret (Sys.creat a b) s) (after (Sys.creat a b) s) h
  wrapped-Fits (Sys.link a b) s h = int_fits (ret (Sys.link a b) s) (after (Sys.link a b) s) h
  wrapped-Fits (Sys.unlink a) s h = int_fits (ret (Sys.unlink a) s) (after (Sys.unlink a) s) h
  wrapped-Fits (Sys.readlink a b c) s h =
      word_fits (ret (Sys.readlink a b c) s) (after (Sys.readlink a b c) s)
  wrapped-Fits (Sys.chmod a b) s h = int_fits (ret (Sys.chmod a b) s) (after (Sys.chmod a b) s) h
  wrapped-Fits (Sys.chown a b c) s h =
      int_fits (ret (Sys.chown a b c) s) (after (Sys.chown a b c) s) h
  wrapped-Fits (Sys.umask a) s h = int_fits (ret (Sys.umask a) s) (after (Sys.umask a) s) h
  wrapped-Fits (Sys.gettimeofday a b) s h =
      int_fits (ret (Sys.gettimeofday a b) s) (after (Sys.gettimeofday a b) s) h
  wrapped-Fits Sys.getuid s h = int_fits (ret Sys.getuid s) (after Sys.getuid s) h
  wrapped-Fits Sys.getgid s h = int_fits (ret Sys.getgid s) (after Sys.getgid s) h
  wrapped-Fits (Sys.setuid a) s h = int_fits (ret (Sys.setuid a) s) (after (Sys.setuid a) s) h
  wrapped-Fits (Sys.setgid a) s h = int_fits (ret (Sys.setgid a) s) (after (Sys.setgid a) s) h
  wrapped-Fits Sys.geteuid s h = int_fits (ret Sys.geteuid s) (after Sys.geteuid s) h
  wrapped-Fits Sys.getegid s h = int_fits (ret Sys.getegid s) (after Sys.getegid s) h
  wrapped-Fits (Sys.alarm a) s h = uint_fits (ret (Sys.alarm a) s) (after (Sys.alarm a) s) h
