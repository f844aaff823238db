-- ===== src/Sdb/Maps.antt =====
-- load_maps of hw4/ptools.cpp and vmmap of hw4/sdb.cpp.
pub mod Laws
use nctu_unix_programming.Base.{
  true, ℕ, suc, Bool, false, ◌&&◌, Option, none, some, List, [], ◌∷◌, ltb, ◌==◌, if◌then◌else◌,
  take, drop, get_or,
}
use nctu_unix_programming.Base.Text.{Bytes}
use nctu_unix_programming.Sdb.Kernel.{Kernel}
use nctu_unix_programming.Monad.{pure, ◌>>◌, halt, undefined}
use nctu_unix_programming.Numbers.{ℤ, strtoll, to_u64}
use nctu_unix_programming.Sdb.Split.{find_first_of, split_str2_vec}
use nctu_unix_programming.Sdb.State.{Sdb, text, map_line, is_running, say}

pub record Range : Type 0 where
  pub begin : ℕ
  pub end : ℕ

pub record MapEntry : Type 0 where
  pub range : Range
  pub perm : List Bool
  pub offset : ℤ
  pub name : Bytes

-- operator<
abbrev pub range_lt : Range → Range → Bool
range_lt r1 r2 = ltb r1.begin r2.begin && ltb r1.end r2.end

-- strtok_r by " \t\n\r": the tokens of a line, eight at most.
unfoldable pub tokens : Bytes → Option (List Bytes)
unfolding split_str2_vec
tokens line = elim (split_str2_vec line (32 ∷ 9 ∷ 10 ∷ 13 ∷ [])) [
  | none ↦ none
  | some ts ↦ some (take 8 ts)
]

-- `args[0]` up to its first `-`, and what follows it.
unfoldable pub parse_range : Range → Bytes → Range
unfolding find_first_of strtoll
parse_range unset arg = elim (find_first_of (b'-' ∷ []) arg) [
  | none ↦ unset
  | some i ↦ record {
    begin = to_u64 (strtoll (take i arg));
    end = to_u64 (strtoll (drop (suc i) arg));
  }
]

abbrev has_flag : Bytes → ℕ → ℕ → Bool
has_flag arg i c = get_or arg i 0 == c

-- One line. `none`: the code reads `args[5]`, or another field, that the line does not have.
unfoldable pub parse_line : ℕ → Bytes → Option MapEntry
unfolding tokens parse_range
parse_line filler line = elim (tokens line) [
  | some (a0 ∷ a1 ∷ a2 ∷ a3 ∷ a4 ∷ a5 ∷ more) ↦ some (record {
    range = parse_range (record { begin = filler; end = filler }) a0;
    perm = has_flag a1 0 b'r' ∷ has_flag a1 1 b'w' ∷ has_flag a1 2 b'x' ∷ [];
    offset = strtoll a2;
    name = a5;
  })
  | _ ↦ none
]

-- The map, with each key beside its value.
abbrev pub Maps : Type 0
Maps = List (Range × MapEntry)

-- `loaded[key] = m` in a std::map, which keeps its entries in the order of operator<: an entry
-- whose key is neither less nor greater keeps its key and takes the value.
unfoldable pub insert_entry : Range → MapEntry → Maps → Maps
insert_entry key m [] = (key, m) ∷ []
insert_entry key m ((k, e) ∷ es) =
    if range_lt key k
    then (key, m) ∷ (k, e) ∷ es
    else if range_lt k key
    then (k, e) ∷ insert_entry key m es
    else (k, m) ∷ es

unfoldable pub load_lines : ℕ → Maps → List Bytes → Option Maps
unfolding parse_line insert_entry
load_lines filler es [] = some es
load_lines filler es (line ∷ lines) = elim (parse_line filler line) [
  | none ↦ none
  | some m ↦ load_lines filler (insert_entry m.range m es) lines
]

abbrev flag_char : Bool → ℕ → ℕ
flag_char b c = if b then c else b'-'

abbrev perm_text : List Bool → Bytes
perm_text perm =
    flag_char (get_or perm 0 false) b'r'
    ∷ flag_char (get_or perm 1 false) b'w'
    ∷ flag_char (get_or perm 2 false) b'x'
    ∷ []

abbrev pub is_empty : Maps → Bool
is_empty [] = true
is_empty (e ∷ es) = false

module _ {K : Kernel} where
  -- The array `perm` of vmmap has no room for a terminator: what `%s` prints past it is left out.
  unfoldable pub print_maps : Maps → Sdb K (Unit {0})
  print_maps [] = pure tt
  print_maps ((k, e) ∷ es) = do
    say (map_line e.range.begin e.range.end (perm_text e.perm) e.name)
    print_maps es

  -- load_maps gives -1 where the file cannot be opened, and the size of the map otherwise.
  unfoldable pub vmmap : Sdb K (Unit {0})
  unfolding load_lines print_maps
  vmmap d =
      if is_running d.info.state
      then elim (K.proc_maps d.world d.info.pid) [
        | none ↦ say (text "** cannot load memory mappings.\n") d
        | some lines ↦ elim (load_lines K.indeterminate [] lines) [
          | none ↦ halt undefined d
          | some es ↦
              if is_empty es
              then say (text "** cannot load memory mappings.\n") d
              else print_maps es d
        ]
      ]
      else say (text "** state must be NOT LOADED.\n") d
