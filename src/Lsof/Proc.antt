-- ===== src/Lsof/Proc.antt =====
-- What hw1.cpp asks of the system: files under /proc, links, the password table; and the regular
-- expressions of the standard library.
use nctu_unix_programming.Base.{ℕ, Bool, Option, List}
use nctu_unix_programming.Base.Text.{Bytes}
use nctu_unix_programming.Numbers.{ℤ}

pub record Proc : Type 0 where
  -- ifstream on a path: its lines, or `none` if it does not open.
  pub read_lines : Bytes → Option (List Bytes)
  -- access(path, R_OK) == 0
  pub access : Bytes → Bool
  -- readlink; `none` for its result -1.
  pub readlink : Bytes → Option Bytes
  -- stat: what st_ino and st_mode hold after the call.
  pub st_ino : Bytes → ℕ
  pub st_mode : Bytes → ℕ
  -- The names that readdir gives for a directory.
  pub read_dir : Bytes → List Bytes
  -- pw_name of getpwuid; `none` for a null pointer.
  pub pw_name : ℤ → Option Bytes
  -- st_mode of a struct stat that was never filled in.
  pub unset_mode : ℕ
  -- regex_search by a pattern; `none` if std::regex throws on it.
  pub regex_search : Bytes → Option (Bytes → Bool)
