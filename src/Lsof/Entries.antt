-- ===== src/Lsof/Entries.antt =====
-- The entries of one process: get_comm, get_uid, get_username, get_type, get_cwd, get_root, get_exe,
-- get_mem, get_fd_type and get_fd of hw1/hw1.cpp. `none` is undefined behaviour.
pub mod Mapped
use nctu_unix_programming.Base.{
  String, ℕ, zero, suc, ◌-◌, bit_and, Bool, true, false, Option, none, some, List, [], ◌∷◌, ◌++◌,
  ◌==◌, if◌then◌else◌, length, get_elem?, take,
}
use nctu_unix_programming.Base.Text.{Bytes, codes, same}
use nctu_unix_programming.Numbers.{ℤ, pos, negsuc, read_number}
use nctu_unix_programming.Lsof.Text.{words, has_word, has_part, is_number, to_string}
use nctu_unix_programming.Lsof.Proc.{Proc}

pub record FileDescriptor : Type 0 where
  pub fd : Bytes
  pub type : Bytes
  pub node : Bytes
  pub name : Bytes

pub record PidInfo : Type 0 where
  pub pid : Bytes
  pub uid : Bytes
  pub username : Bytes
  pub comm : Bytes
  pub file_desc : List FileDescriptor

abbrev pub proc_path : Bytes → String → Bytes
proc_path pid leaf = codes "/proc/" ++ (pid ++ codes leaf)

abbrev first_line : List Bytes → Bytes
first_line [] = []
first_line (line ∷ lines) = line

-- Without a comm file the text is empty; the line on stdout that tells so is left out.
unfoldable pub get_comm : Proc → Bytes → Bytes
get_comm P pid = elim (P.read_lines (proc_path pid "/comm")) [
  | none ↦ []
  | some lines ↦ first_line lines
]

-- `ss2 >> name >> uid`
abbrev pub second_word : List Bytes → Bytes
second_word (w ∷ x ∷ ws) = x
second_word _ = []

-- The loop over the lines of status: `break` leaves the loop over the words only.
unfoldable pub uid_of_lines : Bytes → List Bytes → Bytes
unfolding has_word words
uid_of_lines result [] = result
uid_of_lines result (line ∷ lines) =
    uid_of_lines (if has_word (codes "Uid:") (words line) then second_word (words line) else result)
      lines

unfoldable pub get_uid : Proc → Bytes → Bytes
unfolding uid_of_lines
get_uid P pid = elim (P.read_lines (proc_path pid "/status")) [
  | none ↦ []
  | some lines ↦ uid_of_lines [] lines
]

-- atoi, for numbers that fit an int.
unfoldable pub atoi : Bytes → ℤ
unfolding read_number
atoi s = elim (read_number 10 s) [
  | none ↦ pos 0
  | some (true, suc m) ↦ negsuc m
  | some (_, m) ↦ pos m
]

unfoldable pub get_username : Proc → Bytes → Option Bytes
unfolding atoi
get_username P uid = P.pw_name (atoi uid)

-- sb.st_mode & S_IFMT, and the cases of the switch.
unfoldable pub get_type : ℕ → Bytes
get_type st_mode =
    let format = bit_and st_mode 0xf000 in
    if format == 0x6000
    then codes "Blok"
    else if format == 0x2000
    then codes "CHR"
    else if format == 0x4000
    then codes "DIR"
    else if format == 0x1000
    then codes "FIFO"
    else if format == 0xa000
    then codes "LINK"
    else if format == 0x8000
    then codes "REG"
    else if format == 0xc000
    then codes "SOCK"
    else codes "unknow"

-- The common body of get_cwd, get_root and get_exe; the buffer takes PATH_MAX - 1 bytes.
unfoldable pub link_entry : Proc → Bytes → Bytes → Option FileDescriptor
unfolding get_type
link_entry P fd path =
    if P.access path
    then elim (P.readlink path) [
      | none ↦ none
      | some target ↦ some (record {
        fd = fd;
        type = get_type (P.st_mode path);
        node = to_string (P.st_ino path);
        name = take 4095 target;
      })
    ]
    else some (record {
      fd = fd;
      type = codes "unknown";
      node = 9 ∷ [];
      name = path ++ codes " (readlink: Permission denied)";
    })

unfoldable pub get_cwd : Proc → Bytes → Option FileDescriptor
unfolding link_entry
get_cwd P pid = link_entry P (codes "cwd") (proc_path pid "/cwd")

unfoldable pub get_root : Proc → Bytes → Option FileDescriptor
unfolding link_entry
get_root P pid = link_entry P (codes "root") (proc_path pid "/root")

unfoldable pub get_exe : Proc → Bytes → Option FileDescriptor
unfolding link_entry
get_exe P pid = link_entry P (codes "exe") (proc_path pid "/exe")

-- An entry of get_mem: type and node are those of the maps file itself.
abbrev pub mem_entry : Proc → Bytes → Bytes → FileDescriptor
mem_entry P mem_path word = record {
  fd = codes "mem";
  type = get_type (P.st_mode mem_path);
  node = to_string (P.st_ino mem_path);
  name = word;
}

-- The loop `for (i ...)` of get_mem, which appends to the vector that it walks; `e` is the entry of
-- the word.
unfoldable pub mem_scan : ℕ → FileDescriptor → ℕ → List FileDescriptor → List FileDescriptor
mem_scan zero e i result = result
mem_scan (suc fuel) e i result = elim (get_elem? result i) [
  | none ↦ result
  | some r ↦
      let next = mem_scan fuel e (suc i) result in
      let appended = mem_scan fuel e (suc i) (result ++ (e ∷ [])) in
      if same r.name e.name then result else if i == length result - 1 then appended else next
]

abbrev no_entries : List FileDescriptor → Bool
no_entries [] = true
no_entries (r ∷ rs) = false

-- One word of a line of maps.
unfoldable pub mem_word : Proc → Bytes → List FileDescriptor → Bytes → List FileDescriptor
mem_word P mem_path result word =
    if has_part (codes "/") word
    then (let e = mem_entry P mem_path word in
        let seeded = if no_entries result then e ∷ [] else result in
        mem_scan (suc (suc (length seeded))) e 0 seeded)
    else result

unfoldable pub mem_words : Proc → Bytes → List FileDescriptor → List Bytes → List FileDescriptor
mem_words P mem_path result [] = result
mem_words P mem_path result (w ∷ ws) = mem_words P mem_path (mem_word P mem_path result w) ws

unfoldable pub mem_lines : Proc → Bytes → List FileDescriptor → List Bytes → List FileDescriptor
mem_lines P mem_path result [] = result
mem_lines P mem_path result (line ∷ lines) =
    mem_lines P mem_path (mem_words P mem_path result (words line)) lines

-- The line on stdout for a file that cannot be read is left out.
unfoldable pub get_mem : Proc → Bytes → List FileDescriptor
unfolding mem_lines mem_words mem_word mem_scan has_part words
get_mem P pid =
    let mem_path = proc_path pid "/maps" in
    if P.access mem_path
    then elim (P.read_lines mem_path) [ none ↦ [] | some lines ↦ mem_lines P mem_path [] lines ]
    else []

-- `word.back()`
abbrev pub last_or : ℕ → Bytes → ℕ
last_or d [] = d
last_or d (c ∷ s) = last_or c s

abbrev pub access_letter : ℕ → ℕ
access_letter c =
    if c == b'0' then b'r' else if c == b'1' then b'w' else if c == b'2' then b'u' else b'N'

-- The loop over the words of a line of fdinfo: `check` holds after a word with "flags:".
unfoldable pub flag_words : Bool → Bytes → List Bytes → Bytes
unfolding has_part
flag_words check result [] = result
flag_words check result (w ∷ ws) =
    flag_words (if has_part (codes "flags:") w then true else check)
      (if check then result ++ (access_letter (last_or 0 w) ∷ []) else result) ws

unfoldable pub flag_lines : Bytes → List Bytes → Bytes
unfolding flag_words words
flag_lines result [] = result
flag_lines result (line ∷ lines) = flag_lines (flag_words false result (words line)) lines

unfoldable pub get_fd_type : Proc → Bytes → Bytes → Bytes
unfolding flag_lines
get_fd_type P position fd_dir_path = elim (P.read_lines fd_dir_path) [
  | none ↦ position
  | some lines ↦ flag_lines position lines
]

-- One directory entry of get_fd that is a number.
unfoldable pub fd_entry : Proc → Bytes → Bytes → Option FileDescriptor
unfolding get_fd_type get_type
fd_entry P pid fd_pos =
    let link = proc_path pid "/fd" ++ (codes "/" ++ fd_pos) in
    elim (P.readlink link) [
      | none ↦ none
      | some target ↦ some (record {
        fd = get_fd_type P fd_pos (proc_path pid "/fdinfo/" ++ fd_pos);
        type = get_type (P.st_mode link);
        node = to_string (P.st_ino link);
        name = take 4095 target;
      })
    ]

unfoldable pub fd_entries : Proc → Bytes → List Bytes → Option (List FileDescriptor)
unfolding fd_entry is_number
fd_entries P pid [] = some []
fd_entries P pid (d ∷ ds) = elim (fd_entries P pid ds) [
  | none ↦ none
  | some rest ↦
      if is_number d
      then elim (fd_entry P pid d) [ none ↦ none | some e ↦ some (e ∷ rest) ]
      else some rest
]

unfoldable pub get_fd : Proc → Bytes → Option (List FileDescriptor)
unfolding fd_entries
get_fd P pid =
    let fd_path = proc_path pid "/fd" in
    if P.access fd_path
    then fd_entries P pid (P.read_dir fd_path)
    else some (
        record {
          fd = codes "NOFD";
          type = get_type P.unset_mode;
          node = 9 ∷ [];
          name = fd_path ++ codes "(opendir: Permission denied)";
        }
        ∷ [])
