-- ===== src/Sdb/Split.antt =====
-- splitStr2Vec of hw4/sdb.cpp. `rest` is the text from `current` on.
pub mod Laws
use nctu_unix_programming.Base.{
  ℕ, zero, suc, Bool, true, false, ◌||◌, Option, none, some, List, [], ◌∷◌, ◌++◌, ◌==◌,
  if◌then◌else◌, length, take, drop,
}
use nctu_unix_programming.Base.Text.{Bytes}
use mathlib.Core.Option

abbrev pub contains : Bytes → ℕ → Bool
contains [] c = false
contains (s ∷ seps) c = c == s || contains seps c

-- rest.find_first_of(seps): the index of the first separator.
unfoldable pub find_first_of : Bytes → Bytes → Option ℕ
find_first_of seps [] = none
find_first_of seps (c ∷ rest) =
    let later = find_first_of seps rest in if contains seps c then some 0 else Option.map suc later

-- A token that is pushed only if it is not empty.
abbrev pub pushed : Bytes → List Bytes
pushed [] = []
pushed (c ∷ t) = (c ∷ t) ∷ []

-- The loop; `none` if the fuel runs out.
unfoldable pub split_loop : ℕ → Bytes → Bytes → Option (List Bytes)
unfolding find_first_of
split_loop zero seps rest = none
split_loop (suc fuel) seps rest = elim (find_first_of seps rest) [
  | none ↦ some (pushed rest)
  | some i ↦ Option.map (◌++◌ (pushed (take i rest))) (split_loop fuel seps (drop (suc i) rest))
]

unfoldable pub split_str2_vec : Bytes → Bytes → Option (List Bytes)
unfolding split_loop
split_str2_vec s split_sep = split_loop (suc (length s)) split_sep s
