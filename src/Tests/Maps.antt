-- ===== src/Tests/Maps.antt =====
-- An example of load_maps.
use nctu_unix_programming.Base.{refl, inl, true, false, [], ◌∷◌, arith}
use mathlib.Core.List.{Perm}
use nctu_unix_programming.Base.Text.{Bytes, codes}
use nctu_unix_programming.Numbers.{pos}
use nctu_unix_programming.Sdb.Maps.{MapEntry, parse_line, load_lines}
use nctu_unix_programming.Sdb.Maps.Laws.{Loads, Ascending, keyed, Reads, load_lines-Ascending}

abbrev library_line : Bytes
library_line = codes "7000-9000 r-xp 00000000 08:01 12 /lib/c\n"

abbrev program_line : Bytes
program_line = codes "4000-5000 rw-p 00001000 08:01 34 /bin/x\n"

abbrev library_entry : MapEntry
library_entry = record {
  range = record { begin = 0x7000; end = 0x9000 };
  perm = true ∷ false ∷ true ∷ [];
  offset = pos 0;
  name = codes "/lib/c";
}

abbrev program_entry : MapEntry
program_entry = record {
  range = record { begin = 0x4000; end = 0x5000 };
  perm = true ∷ true ∷ false ∷ [];
  offset = pos 0x1000;
  name = codes "/bin/x";
}

reads : Reads 0 (library_line ∷ program_line ∷ []) (library_entry ∷ program_entry ∷ [])
unfolding parse_line
reads = (refl, (refl, tt))

load_lines-Ascending_example :
    Loads
      (λ es. Ascending es × Perm (keyed (library_entry ∷ program_entry ∷ [])) es)
      (load_lines 0 [] (library_line ∷ program_line ∷ []))
load_lines-Ascending_example =
    load_lines-Ascending 0 (library_line ∷ program_line ∷ []) (library_entry ∷ program_entry ∷ [])
      reads (omega arith, (inl (omega arith), tt), (omega arith, tt, tt))
