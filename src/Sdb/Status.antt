-- ===== src/Sdb/Status.antt =====
-- The macros of <sys/wait.h> that sdb.cpp applies to a wait status, as glibc defines them.
use nctu_unix_programming.Base.{ℕ, ◌%◌, Bool, ◌&&◌, ltb, leb, ◌==◌}

abbrev pub wif_stopped : ℕ → Bool
wif_stopped status = status % 256 == 0x7f

abbrev pub wif_exited : ℕ → Bool
wif_exited status = status % 128 == 0

-- ((signed char) ((status & 0x7f) + 1) >> 1) > 0
abbrev pub wif_signaled : ℕ → Bool
wif_signaled status = leb 1 (status % 128) && ltb (status % 128) 127

abbrev pub w_termsig : ℕ → ℕ
w_termsig status = status % 128
