-- ===== src/Sdb/Elf.antt =====
-- elf_read of hw4/ptools.cpp: the entry point and the size of .text, from the bytes of the file.
-- Bytes past the end of the file are those of buffers that the short reads left as they were.
use nctu_unix_programming.Base.{
  ℕ, zero, suc, ◌+◌, ◌*◌, Bool, ◌||◌, Option, none, some, [], ◌∷◌, ltb, ◌==◌, if◌then◌else◌, length,
  take, drop, get_or,
}
use nctu_unix_programming.Base.Text.{Bytes, codes, same}
use nctu_unix_programming.Sdb.Kernel.{Kernel}
use nctu_unix_programming.Monad.{pure, ◌>>◌, halt, failure, undefined}
use nctu_unix_programming.Sdb.State.{ProgInfo, noload, Sdb, cannot_open, cannot_read, say}

-- A little-endian number of n bytes at an offset; a missing byte is `filler`.
unfoldable pub number_at : ℕ → ℕ → Bytes → ℕ → ℕ
number_at filler zero file off = 0
number_at filler (suc n) file off = get_or file off filler + 256 * number_at filler n file (suc off)

-- Elf64_Ehdr: its size, and the fields that are read.
abbrev pub ehdr_size : ℕ
ehdr_size = 64

abbrev pub e_entry : ℕ → Bytes → ℕ
e_entry filler file = number_at filler 8 file 24

abbrev pub e_shoff : ℕ → Bytes → ℕ
e_shoff filler file = number_at filler 8 file 40

abbrev pub e_shnum : ℕ → Bytes → ℕ
e_shnum filler file = number_at filler 2 file 60

abbrev pub e_shstrndx : ℕ → Bytes → ℕ
e_shstrndx filler file = number_at filler 2 file 62

-- The fields of section header i: Elf64_Shdr is 64 bytes.
abbrev pub section : ℕ → Bytes → ℕ → ℕ
section filler file i = e_shoff filler file + 64 * i

abbrev pub sh_name : ℕ → Bytes → ℕ → ℕ
sh_name filler file i = number_at filler 4 file (section filler file i)

abbrev pub sh_offset : ℕ → Bytes → ℕ → ℕ
sh_offset filler file i = number_at filler 8 file (section filler file i + 24)

abbrev pub sh_size : ℕ → Bytes → ℕ → ℕ
sh_size filler file i = number_at filler 8 file (section filler file i + 32)

-- Up to n bytes from an offset: what fread can give.
abbrev pub slice : Bytes → ℕ → ℕ → Bytes
slice file off n = take n (drop off file)

-- The text up to the first zero byte; `none` if the buffer ends before one.
unfoldable pub c_string : Bytes → Option Bytes
c_string [] = none
c_string (zero ∷ s) = some []
c_string (suc c ∷ s) = elim (c_string s) [ none ↦ none | some t ↦ some (suc c ∷ t) ]

-- prog_info as `prog_info info;` leaves it: pid, entry and size have no value.
abbrev pub fresh_info : ℕ → ProgInfo
fresh_info filler = record {
  state = noload;
  pid = filler;
  entry = filler;
  size = filler;
  path = [];
  bp_vec = [];
}

-- The loop over the section headers, n of them from i on. `none`: a name outside the string table.
unfoldable pub scan_sections : ℕ → Bytes → Bytes → ℕ → ℕ → ProgInfo → Option ProgInfo
unfolding c_string
scan_sections filler file names zero i info = some info
scan_sections filler file names (suc n) i info =
    elim (c_string (drop (sh_name filler file i) names)) [
      | none ↦ none
      | some name ↦ scan_sections filler file names n (suc i) (
          if same name (codes ".text")
          then record info { entry = e_entry filler file; size = sh_size filler file i }
          else info)
    ]

-- The test of the first bytes is an `or`.
abbrev pub magic : Bytes → Bool
magic file = get_or file 0 0 == 0x7f || get_or file 1 0 == b'E'

-- The file once the header was read. A string table index past the table, or a name past the
-- string table, is undefined behaviour.
unfoldable pub read_sections : ℕ → Bytes → Option ProgInfo
unfolding scan_sections number_at
read_sections filler file =
    let shstrtab =
      slice file (sh_offset filler file (e_shstrndx filler file))
        (sh_size filler file (e_shstrndx filler file)) in
    if magic file
    then (if ltb (e_shstrndx filler file) (e_shnum filler file)
        then scan_sections filler file shstrtab (e_shnum filler file) 0 (fresh_info filler)
        else none)
    else some (fresh_info filler)

module _ {K : Kernel} where
  abbrev defined : Option ProgInfo → Sdb K ProgInfo
  defined none = halt undefined
  defined (some info) = pure info

  unfoldable pub elf_read : Bytes → Sdb K ProgInfo
  unfolding read_sections
  elf_read path d = elim (K.read_file d.world path) [
    | none ↦ (do say (cannot_open path); halt failure) d
    | some file ↦
        if ltb (length file) ehdr_size
        then (do say cannot_read; halt failure) d
        else defined (read_sections K.indeterminate file) d
  ]
