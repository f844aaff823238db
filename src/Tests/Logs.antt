-- ===== src/Tests/Logs.antt =====
-- hw2/sample.cpp under the logger, on a small C library.
use nctu_unix_programming.Base.{ℕ, suc, ◌≡◌, refl, ap, true, none, some, List, [], ◌∷◌}
use nctu_unix_programming.Base.Text.{codes}
use nctu_unix_programming.Numbers.{pos}
use nctu_unix_programming.Logger.Libc.{Libc, Line}
use nctu_unix_programming.Logger.Sample.Laws.{IsLog}

-- The number of calls that were made, and the lines of the log.
record Calls : Type 0 where
  count : ℕ
  lines : List Line

-- Every call returns 3, and its buffer is empty.
abbrev counting : Libc
counting = record {
  World = Calls;
  loads = λ w. true;
  call = λ c w. (pos 3, record w { count = suc w.count });
  realpath = λ w path. none;
  fd_link = λ w fd. codes "/tmp/a";
  fileno = λ w f. pos 4;
  getenv_output_fd = λ w. some (codes "5");
  dprintf = λ w fd line. record w { lines = line ∷ w.lines };
  byte = λ w a. 0;
}

unfoldable counting-IsLog : IsLog counting
counting-IsLog = record {
  Same = λ w v. w.count ≡ v.count;
  call-Same = λ c w v h. (refl, ap suc h);
  dprintf-Same = λ w v fd line h. h;
  call-real_call = λ c w. refl;
}

abbrev fresh : Calls
fresh = record { count = 0; lines = [] }

-- A C library whose calls return 3000000000.
abbrev large : Libc
large = record {
  World = Calls;
  loads = λ w. true;
  call = λ c w. (pos 3000000000, record w { count = suc w.count });
  realpath = λ w path. none;
  fd_link = λ w fd. codes "/tmp/a";
  fileno = λ w f. pos 4;
  getenv_output_fd = λ w. some (codes "5");
  dprintf = λ w fd line. record w { lines = line ∷ w.lines };
  byte = λ w a. 0;
}
