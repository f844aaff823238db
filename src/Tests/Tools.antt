-- ===== src/Tests/Tools.antt =====
-- Runs of the lsof model and of the logger on small systems.
use nctu_unix_programming.Base.{
  ◌≡◌, refl, true, ◌&&◌, some, none, List, [], ◌∷◌, keep_if, if◌then◌else◌,
}
use nctu_unix_programming.Base.Text.{Bytes, codes, same}
use nctu_unix_programming.Numbers.{pos}
use nctu_unix_programming.Lsof.Text.{has_part}
use nctu_unix_programming.Lsof.Proc.{Proc}
use nctu_unix_programming.Lsof.Entries.{FileDescriptor, PidInfo, get_mem, proc_path}
use nctu_unix_programming.Lsof.Entries.Mapped.{has_name, DistinctNames, in_lines, get_mem-listed}
use nctu_unix_programming.Lsof.Filters.{Args, Row, print_all, filtered}
use nctu_unix_programming.Lsof.Filters.Laws.{passes, filtered-rows}
use nctu_unix_programming.Logger.Libc.{Libc, Call, Line, num}
use nctu_unix_programming.Logger.Libc

abbrev maps : List Bytes
maps =
    codes "400000-401000 r-xp 00000000 08:01 12 /bin/cat"
    ∷ codes "601000-602000 rw-p 00001000 08:01 12 /bin/cat"
    ∷ codes "7f00-7f10 rw-p 00000000 00:00 0"
    ∷ []

-- A process whose maps file can be read; a pattern matches the text that it is a part of.
abbrev proc : Proc
proc = record {
  read_lines = λ path. if same path (proc_path (codes "12") "/maps") then some maps else none;
  access = λ path. true;
  readlink = λ path. none;
  st_ino = λ path. 5;
  st_mode = λ path. 0x8000;
  read_dir = λ path. [];
  pw_name = λ uid. none;
  unset_mode = 0;
  regex_search = λ pattern. some (has_part pattern);
}

get_mem-listed_example :
    DistinctNames (get_mem proc (codes "12"))
    × ((n : Bytes)
        → has_name (get_mem proc (codes "12")) n ≡ (has_part (codes "/") n && in_lines n maps))
get_mem-listed_example = get_mem-listed proc (codes "12") maps refl refl

abbrev file : Bytes → FileDescriptor
file name = record { fd = codes "1w"; type = codes "REG"; node = codes "5"; name = name }

abbrev process : Bytes → List FileDescriptor → PidInfo
process comm fds = record {
  pid = codes "12";
  uid = codes "0";
  username = codes "root";
  comm = comm;
  file_desc = fds;
}

abbrev processes : List PidInfo
processes =
    process (codes "cat") (file (codes "/tmp/a") ∷ file (codes "/dev/null") ∷ [])
    ∷ process (codes "bash") (file (codes "/tmp/b") ∷ [])
    ∷ []

abbrev args : Args
args = record { arg_comm = codes "cat"; arg_type = []; arg_file = codes "/tmp" }

filtered-rows_example :
    print_all (process (codes "cat") (file (codes "/tmp/a") ∷ []) ∷ [])
    ≡ keep_if
        (λ (r : Row).
          (passes proc (codes "cat") r.comm && passes proc [] r.type)
          && passes proc (codes "/tmp") r.name)
        (print_all processes)
unfolding filtered has_part
filtered-rows_example =
    filtered-rows proc args processes (process (codes "cat") (file (codes "/tmp/a") ∷ []) ∷ []) refl

-- A C library whose world is the lines written to descriptor 3; every call returns 0.
abbrev libc : Libc
libc = record {
  World = List Line;
  loads = λ w. true;
  call = λ c w. (pos 0, w);
  realpath = λ w path. none;
  fd_link = λ w fd. codes "/tmp/a";
  fileno = λ w f. pos 4;
  getenv_output_fd = λ w. some (codes "3");
  dprintf = λ w fd line. line ∷ w;
  byte = λ w a. 0;
}
