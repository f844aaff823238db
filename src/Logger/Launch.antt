-- ===== src/Logger/Launch.antt =====
-- main of hw2/hw2.cpp: the options, the log's descriptor, and the program to run.
pub mod Laws
use nctu_unix_programming.Base.{ℕ, Option, none, some, List, [], ◌∷◌}
use nctu_unix_programming.Base.Text.{Bytes, codes}
use nctu_unix_programming.Numbers.{ℤ, pos, negsuc}

-- What main asks of the system: open for writing with O_TRUNC and O_CREAT, dup2, and perror with its
-- prefix.
pub record Os : Type 1 where
  pub World : Type 0
  pub open_log : Bytes → World → ℤ × World
  pub dup2 : ℕ → ℕ → World → ℤ × World
  pub perror : Bytes → World → World

-- What getopt gives for "o:p:"; `bad` is its result '?'.
pub data Opt : Type 0 where
  opt_file opt_sopath : Bytes → Opt
  bad : Opt

pub record Args : Type 0 where
  pub arg_file : Bytes
  pub arg_sopath : Bytes

abbrev pub defaults : Args
defaults = record { arg_file = []; arg_sopath = codes "./logger.so" }

-- The loop over the options; `none` after a bad one.
unfoldable pub read_opts : Args → List Opt → Option Args
read_opts a [] = some a
read_opts a (opt_file s ∷ os) = read_opts (record a { arg_file = s }) os
read_opts a (opt_sopath s ∷ os) = read_opts (record a { arg_sopath = s }) os
read_opts a (bad ∷ os) = none

-- A call of execvp: two variables of the environment, and its arguments.
pub record Execvp : Type 0 where
  pub output_fd : ℤ
  pub ld_preload : Bytes
  pub file : Bytes
  pub argv : List Bytes

-- How main ends: a message and -1, or execvp in a world.
pub data Launch (W : Type 0) : Type 0 where
  usage no_command : Launch W
  exec : Execvp → W → Launch W

module _ (O : Os) where
  -- The result of open is taken as it is; the command is run after a failed open too.
  unfoldable pub opened : ℤ × O.World → ℤ × O.World
  opened (pos n, w) = (pos n, w)
  opened (negsuc n, w) = (negsuc n, O.perror (codes "open") w)

  -- OUTPUT_FD: the file that is opened, or 3, to which stderr is duplicated.
  unfoldable pub open_output : Bytes → O.World → ℤ × O.World
  unfolding opened
  open_output [] w = (pos 3, (O.dup2 2 3 w).1)
  open_output (c ∷ f) w = opened (O.open_log (c ∷ f) w)

  -- `rest` is argv from optind on.
  unfoldable pub launch : O.World → Args → List Bytes → Launch O.World
  unfolding open_output
  launch w a [] = no_command
  launch w a (cmd ∷ args) =
      (let (fd, w') = open_output a.arg_file w in
        exec (record { output_fd = fd; ld_preload = a.arg_sopath; file = cmd; argv = cmd ∷ args })
          w')

  unfoldable pub main : O.World → List Opt → List Bytes → Launch O.World
  unfolding read_opts launch
  main w opts rest = elim (read_opts defaults opts) [ none ↦ usage | some a ↦ launch w a rest ]
