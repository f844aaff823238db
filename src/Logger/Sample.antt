-- ===== src/Logger/Sample.antt =====
-- Programs that call the functions of hw2/logger.cpp, run with the logger and without it, and
-- hw2/sample.cpp.
pub mod Laws
use nctu_unix_programming.Base.{ℕ, String}
use nctu_unix_programming.Base.Text.{Bytes, codes}
use nctu_unix_programming.Monad.{M, pure, ◌>>=◌}
use nctu_unix_programming.Numbers.{ℤ, pos, to_u64}
use nctu_unix_programming.Logger.Libc
use nctu_unix_programming.Logger.Libc.{Libc, Call}
use nctu_unix_programming.Logger.Calls.{interposed}

-- A program: it ends with a status, or makes a call and goes on with the result.
pub data Program : Type 0 where
  finish : ℤ → Program
  ask : Call → (ℤ → Program) → Program

module _ (L : Libc) where
  unfoldable pub with_logger : Program → M L.World ℤ
  unfolding interposed
  with_logger (finish status) = pure status
  with_logger (ask c k) = do result ← interposed L c; with_logger (k result)

  abbrev pub without : Program → L.World → ℤ × L.World
  without (finish status) w = (status, w)
  without (ask c k) w = (let (result, w') = L.call c w in without (k result) w')

abbrev file_a : Bytes
file_a = codes "aaa"

abbrev file_b : Bytes
file_b = codes "bbb"

-- A call whose result is not looked at.
infixr 5 ◌▷◌
abbrev ◌▷◌ : Call → Program → Program
c ▷ p = ask c λ _. p

-- `cccc` and `buf` are the addresses of the text and of the array; `unset` stands for the mode that
-- the second open does not pass. std::cout is none of the functions.
unfoldable pub sample : ℕ → ℕ → ℕ → Program
sample cccc buf unset =
    Libc.close (pos 2)
    ▷ Libc.creat file_a 0o600
    ▷ Libc.chmod file_a 0o666
    ▷ Libc.chown file_a 0o65534 0o65534
    ▷ Libc.rename file_a file_b
    ▷ ask (Libc.open_file file_b 1101 0o666) λ fd.
      Libc.write fd cccc 5
      ▷ Libc.close fd
      ▷ ask (Libc.open_file file_b 0 unset) λ fd'.
        Libc.read fd' buf 100
        ▷ Libc.close fd'
        ▷ ask Libc.tmpfile λ stream.
          Libc.fwrite cccc 1 5 (to_u64 stream)
          ▷ Libc.fclose (to_u64 stream)
          ▷ ask (Libc.fopen file_b (codes "r")) λ fp.
            Libc.fread buf 1 100 (to_u64 fp)
            ▷ Libc.fclose (to_u64 fp)
            ▷ Libc.remove file_b
            ▷ finish (pos 0)
