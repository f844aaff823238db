-- ===== src/Sdb/Command.antt =====
-- The command loop of main in hw4/sdb.cpp: the words of a line, and the command that they name.
pub mod Info
pub mod Views
pub mod Moves
pub mod Session
pub mod Reachable
use nctu_unix_programming.Base.{
  zero, suc, true, false, ◌==◌, ℕ, Bool, Option, none, some, List, [], ◌∷◌, leb, if◌then◌else◌,
  length, get_elem?,
}
use nctu_unix_programming.Base.Text.{Bytes, codes, same}
use nctu_unix_programming.Sdb.Kernel.{Kernel}
use nctu_unix_programming.Monad.{pure, ◌>>=◌, ◌>>◌, halt, success, uncaught, undefined, out_of_fuel}
use nctu_unix_programming.Numbers.{stoull, stoi, stol, to_u64}
use nctu_unix_programming.Sdb.Split.{split_str2_vec}
use nctu_unix_programming.Sdb.State.{Sdb, text, say}
use nctu_unix_programming.Sdb.Breaks.{set_bp, del_bp, list}
use nctu_unix_programming.Sdb.Cont.{cont, si}
use nctu_unix_programming.Sdb.Loader.{load, start, run}
use nctu_unix_programming.Sdb.Regs.{print_reg, print_all_regs, set_reg}
use nctu_unix_programming.Sdb.Show.{dump, disasm, help}
use nctu_unix_programming.Sdb.Maps.{vmmap}

-- The commands, as the chain of comparisons tells them apart.
pub data Command : Type 0 where
  break cont_cmd delete disasm_cmd dump_cmd exit_cmd get_cmd getregs help_cmd list_cmd load_cmd :
      Command
  run_cmd vmmap_cmd set_cmd si_cmd start_cmd unknown : Command

abbrev names : List (Bytes × Command)
names =
    (codes "break", break)
    ∷ (codes "b", break)
    ∷ (codes "cont", cont_cmd)
    ∷ (codes "c", cont_cmd)
    ∷ (codes "delete", delete)
    ∷ (codes "disasm", disasm_cmd)
    ∷ (codes "d", disasm_cmd)
    ∷ (codes "dump", dump_cmd)
    ∷ (codes "x", dump_cmd)
    ∷ (codes "exit", exit_cmd)
    ∷ (codes "q", exit_cmd)
    ∷ (codes "get", get_cmd)
    ∷ (codes "g", get_cmd)
    ∷ (codes "getregs", getregs)
    ∷ (codes "help", help_cmd)
    ∷ (codes "h", help_cmd)
    ∷ (codes "list", list_cmd)
    ∷ (codes "l", list_cmd)
    ∷ (codes "load", load_cmd)
    ∷ (codes "run", run_cmd)
    ∷ (codes "r", run_cmd)
    ∷ (codes "vmmap", vmmap_cmd)
    ∷ (codes "m", vmmap_cmd)
    ∷ (codes "set", set_cmd)
    ∷ (codes "si", si_cmd)
    ∷ (codes "start", start_cmd)
    ∷ []

unfoldable pub find_command : Bytes → List (Bytes × Command) → Command
find_command cmd [] = unknown
find_command cmd ((name, c) ∷ rest) = if same cmd name then c else find_command cmd rest

unfoldable pub command_of : Bytes → Command
unfolding find_command
command_of cmd = find_command cmd names

abbrev chomp_end : Bytes → Bool
chomp_end [] = true
chomp_end (zero ∷ line) = true
chomp_end (suc c ∷ line) = false

-- The bytes before the first zero, less a newline at their end.
unfoldable pub chomp : Bytes → Bytes
chomp [] = []
chomp (zero ∷ line) = []
chomp (suc c ∷ line) = elim (chomp_end line) [
  | true ↦ if suc c == 10 then [] else suc c ∷ []
  | false ↦ suc c ∷ chomp line
]

module _ {K : Kernel} where
  -- `input[i]`; past the end of the vector the behaviour is undefined.
  abbrev pub argument : List Bytes → ℕ → Sdb K Bytes
  argument input i d = elim (get_elem? input i) [ none ↦ halt undefined d | some s ↦ pure s d ]

  -- A conversion that may throw; nothing catches it.
  abbrev pub or_throw : {A : Type 0} → Option A → Sdb K A
  or_throw none = halt uncaught
  or_throw (some a) = pure a

  unfoldable pub execute : Command → List Bytes → Sdb K (Unit {0})
  execute break input =
      if leb 2 (length input)
      then (do s ← argument input 1; addr ← or_throw (stoull s); set_bp addr)
      else say (text "** no addr given.\n")
  execute cont_cmd input = cont
  execute delete input = do s ← argument input 1; idx ← or_throw (stoi s); del_bp idx
  execute disasm_cmd input =
      if leb 2 (length input)
      then (do s ← argument input 1; addr ← or_throw (stoull s); disasm addr)
      else say (text "** no addr given.\n")
  execute dump_cmd input =
      if leb 2 (length input)
      then (do s ← argument input 1; addr ← or_throw (stoull s); dump addr)
      else say (text "** no addr given.\n")
  execute exit_cmd input = halt success
  execute get_cmd input = do s ← argument input 1; print_reg s
  execute getregs input = print_all_regs
  execute help_cmd input = help
  execute list_cmd input = list
  execute load_cmd input = do s ← argument input 1; load s
  execute run_cmd input = run
  execute vmmap_cmd input = vmmap
  execute set_cmd input =
      if leb 3 (length input)
      then (do
        s ← argument input 1
        t ← argument input 2
        val ← or_throw (stol t)
        set_reg s (to_u64 val))
      else say (text "** input error.\n")
  execute si_cmd input = si
  execute start_cmd input = start
  execute unknown input = say (text "error commond\n")

  abbrev prompt : Bool → Sdb K (Unit {0})
  prompt ifprint = if ifprint then pure tt else say (text "sdb> ")

  -- One line, without its newline. A line with no word is skipped, its prompt too.
  unfoldable pub handle_line : Bool → Bytes → Sdb K (Unit {0})
  unfolding split_str2_vec command_of execute
  handle_line ifprint line d = elim (split_str2_vec line (codes " ")) [
    | none ↦ halt out_of_fuel d
    | some [] ↦ pure tt d
    | some (cmd ∷ args) ↦ (do execute (command_of cmd) (cmd ∷ args); prompt ifprint) d
  ]

  -- What fgets gave, up to its first zero byte and without its newline. A line that begins with a
  -- zero byte is written to before its first element.
  unfoldable pub run_line : Bool → Bytes → Sdb K (Unit {0})
  unfolding handle_line chomp
  run_line ifprint [] d = halt undefined d
  run_line ifprint (zero ∷ line) d = halt undefined d
  run_line ifprint (suc c ∷ line) d = handle_line ifprint (chomp (suc c ∷ line)) d

  -- The lines of the input until it ends.
  unfoldable pub run_lines : Bool → List Bytes → Sdb K (Unit {0})
  unfolding run_line
  run_lines ifprint [] = pure tt
  run_lines ifprint (line ∷ lines) = do run_line ifprint line; run_lines ifprint lines

  -- main after its options: the program to load, if one is given, and whether a script is read.
  unfoldable pub main : Option Bytes → Bool → List Bytes → Sdb K (Unit {0})
  unfolding run_lines load
  main none ifprint lines = do prompt ifprint; run_lines ifprint lines
  main (some path) ifprint lines = do load path; prompt ifprint; run_lines ifprint lines
