-- ===== src/Lsof/Entries/Mapped.antt =====
-- get_mem of hw1/hw1.cpp against the words of the maps file.
use nctu_unix_programming.Base.{
  ℕ, zero, suc, ◌+◌, ◌-◌, ◌<◌, ◌≡◌, refl, ◌∙◌, Bool, true, false, ◌&&◌, ◌||◌, List, [], ◌∷◌, ◌++◌,
  ◌==◌, if◌then◌else◌, length, length-append, get_elem?, arith, Bool-cases, inl, inr, some,
}
use nctu_unix_programming.Base.Text.{Bytes, codes, same, same_iff}
use nctu_unix_programming.Lsof.Text.{words, has_word, has_part}
use nctu_unix_programming.Lsof.Proc.{Proc}
use nctu_unix_programming.Lsof.Entries.{
  FileDescriptor, mem_entry, mem_scan, mem_word, mem_words, mem_lines, get_mem, proc_path,
}
use mathlib.Core.List.{append_assoc}

-- Whether an entry has a name.
unfoldable pub has_name : List FileDescriptor → Bytes → Bool
has_name [] n = false
has_name (r ∷ rs) n = same r.name n || has_name rs n

-- No two entries have the same name.
abbrev pub DistinctNames : List FileDescriptor → Type 0
DistinctNames [] = Unit {0}
DistinctNames (r ∷ rs) = (has_name rs r.name ≡ false) × DistinctNames rs

get_elem?-after :
    (done : List FileDescriptor) (x : FileDescriptor) (rest : List FileDescriptor)
    → get_elem? (done ++ (x ∷ rest)) (length done) ≡ some x
get_elem?-after [] x rest = refl
get_elem?-after (y ∷ done) x rest = get_elem?-after done x rest

same_refl : (a : Bytes) → same a a ≡ true
same_refl a = (same_iff a a).1 refl

-- One more element before the index.
length-append_one :
    (done : List FileDescriptor) (x : FileDescriptor)
    → length (done ++ (x ∷ [])) ≡ suc (length done)
length-append_one done x = omega (arith, length-append done (x ∷ []))

last_index :
    (done : List FileDescriptor) (x : FileDescriptor)
    → (length done == length (done ++ (x ∷ [])) - 1) ≡ true
last_index done x = ground (arith, length-append done (x ∷ []))

inner_index :
    (done : List FileDescriptor) (x y : FileDescriptor) (rest : List FileDescriptor)
    → (length done == length (done ++ (x ∷ y ∷ rest)) - 1) ≡ false
inner_index done x y rest = ground (arith, length-append done (x ∷ y ∷ rest))

-- The appended entry is met in the next round, which ends the loop.
mem_scan_appended :
    (fuel : ℕ) (e : FileDescriptor) (done : List FileDescriptor) (x : FileDescriptor)
    → mem_scan (suc fuel) e (suc (length done)) ((done ++ (x ∷ [])) ++ (e ∷ []))
      ≡ done ++ (x ∷ e ∷ [])
unfolding mem_scan
mem_scan_appended fuel e done x =
    rw
      (
        ← length-append_one done x,
        get_elem?-after (done ++ (x ∷ [])) e [],
        mem_scan,
        same_refl e.name,
      )
      (append_assoc done (x ∷ []) (e ∷ []))

-- The loop that appends to the vector that it walks, from an index on.
mem_scan-after :
    (fuel : ℕ) (e : FileDescriptor) (done : List FileDescriptor) (x : FileDescriptor)
    (rest : List FileDescriptor)
    → length rest + 1 < fuel
    → mem_scan fuel e (length done) (done ++ (x ∷ rest)) ≡ (
        if has_name (x ∷ rest) e.name then done ++ (x ∷ rest) else done ++ (x ∷ (rest ++ (e ∷ []))))
unfolding mem_scan has_name
mem_scan-after zero e done x rest h = elim h [ ]
mem_scan-after (suc zero) e done x rest h = absurd (omega arith)
mem_scan-after (suc (suc fuel)) e done x [] h =
    rw (get_elem?-after done x [], mem_scan)
      (elim (Bool-cases (same x.name e.name)) [
        | inl m ↦ rw m refl
        | inr m ↦ rw (m, last_index done x) (mem_scan_appended fuel e done x)
      ])
mem_scan-after (suc (suc fuel)) e done x (y ∷ rest) h =
    rw (get_elem?-after done x (y ∷ rest), mem_scan)
      (elim (Bool-cases (same x.name e.name)) [
        | inl m ↦ rw m refl
        | inr m ↦
            rw (m, inner_index done x y rest)
              (rw
                (
                  length-append_one done x,
                  append_assoc done (x ∷ []) (y ∷ rest),
                  append_assoc done (x ∷ []) (y ∷ (rest ++ (e ∷ []))),
                )
                at (mem_scan-after (suc fuel) e (done ++ (x ∷ [])) y rest (omega arith)))
      ])

-- A word with a slash is appended under its name unless the name is there.
mem_word_lem :
    (P : Proc) (path : Bytes) (result : List FileDescriptor) (w : Bytes)
    → mem_word P path result w ≡ (
        if has_part (codes "/") w
        then (if has_name result w then result else result ++ (mem_entry P path w ∷ []))
        else result)
unfolding mem_word has_name
mem_word_lem P path [] w = elim (Bool-cases (has_part (codes "/") w)) [
  | inl e ↦
      rw (e, mem_word)
        (rw (same_refl w) at
          (mem_scan-after 3 (mem_entry P path w) [] (mem_entry P path w) [] (omega arith)))
  | inr e ↦ rw (e, mem_word) refl
]
mem_word_lem P path (x ∷ rest) w = elim (Bool-cases (has_part (codes "/") w)) [
  | inl e ↦
      rw (e, mem_word)
        (mem_scan-after (suc (suc (length (x ∷ rest)))) (mem_entry P path w) [] x rest
          (omega arith))
  | inr e ↦ rw (e, mem_word) refl
]

has_name-append :
    (rs : List FileDescriptor) (e : FileDescriptor) (n : Bytes)
    → has_name (rs ++ (e ∷ [])) n ≡ (has_name rs n || same e.name n)
unfolding has_name
has_name-append [] e n = ground arith
has_name-append (r ∷ rs) e n = ground (arith, has_name-append rs e n)

DistinctNames-append :
    (rs : List FileDescriptor) (e : FileDescriptor)
    → DistinctNames rs
    → has_name rs e.name ≡ false
    → DistinctNames (rs ++ (e ∷ []))
unfolding has_name
DistinctNames-append [] e d h = (refl, tt)
DistinctNames-append (r ∷ rs) e d h = ground (
  arith,
  has_name-append rs e r.name,
  DistinctNames-append rs e d.1,
  same_iff r.name e.name,
  same_iff e.name r.name,
)

mem_word-DistinctNames :
    (P : Proc) (path : Bytes) (rs : List FileDescriptor) (w : Bytes)
    → DistinctNames rs
    → DistinctNames (mem_word P path rs w)
mem_word-DistinctNames P path rs w d =
    rw mem_word_lem (ground (arith, DistinctNames-append rs (mem_entry P path w) d))

mem_word-has_name :
    (P : Proc) (path : Bytes) (rs : List FileDescriptor) (w n : Bytes)
    → has_name (mem_word P path rs w) n ≡ (has_name rs n || (has_part (codes "/") n && same w n))
mem_word-has_name P path rs w n =
    rw mem_word_lem (ground (arith, has_name-append rs (mem_entry P path w) n, same_iff w n))

mem_words-DistinctNames :
    (P : Proc) (path : Bytes) (rs : List FileDescriptor) (ws : List Bytes)
    → DistinctNames rs
    → DistinctNames (mem_words P path rs ws)
unfolding mem_words
mem_words-DistinctNames P path rs [] d = d
mem_words-DistinctNames P path rs (w ∷ ws) d =
    mem_words-DistinctNames P path (mem_word P path rs w) ws (mem_word-DistinctNames P path rs w d)

mem_words-has_name :
    (P : Proc) (path : Bytes) (rs : List FileDescriptor) (ws : List Bytes) (n : Bytes)
    → has_name (mem_words P path rs ws) n
      ≡ (has_name rs n || (has_part (codes "/") n && has_word n ws))
unfolding mem_words has_word
mem_words-has_name P path rs [] n = ground arith
mem_words-has_name P path rs (w ∷ ws) n =
    mem_words-has_name P path (mem_word P path rs w) ws n
    ∙ ground (arith, mem_word-has_name P path rs w n)

-- Whether a word stands in one of the lines.
unfoldable pub in_lines : Bytes → List Bytes → Bool
in_lines n [] = false
in_lines n (line ∷ lines) = has_word n (words line) || in_lines n lines

mem_lines-DistinctNames :
    (P : Proc) (path : Bytes) (rs : List FileDescriptor) (lines : List Bytes)
    → DistinctNames rs
    → DistinctNames (mem_lines P path rs lines)
unfolding mem_lines
mem_lines-DistinctNames P path rs [] d = d
mem_lines-DistinctNames P path rs (line ∷ lines) d =
    mem_lines-DistinctNames P path (mem_words P path rs (words line)) lines
      (mem_words-DistinctNames P path rs (words line) d)

mem_lines-has_name :
    (P : Proc) (path : Bytes) (rs : List FileDescriptor) (lines : List Bytes) (n : Bytes)
    → has_name (mem_lines P path rs lines) n
      ≡ (has_name rs n || (has_part (codes "/") n && in_lines n lines))
unfolding mem_lines in_lines
mem_lines-has_name P path rs [] n = ground arith
mem_lines-has_name P path rs (line ∷ lines) n =
    mem_lines-has_name P path (mem_words P path rs (words line)) lines n
    ∙ ground (arith, mem_words-has_name P path rs (words line) n)

get_mem_lem :
    (P : Proc) (pid : Bytes) (lines : List Bytes)
    → P.access (proc_path pid "/maps") ≡ true
    → P.read_lines (proc_path pid "/maps") ≡ some lines
    → get_mem P pid ≡ mem_lines P (proc_path pid "/maps") [] lines
unfolding get_mem
get_mem_lem P pid lines a r = rw (a, r)

-- For a readable maps file, get_mem lists distinct names, and a name is listed exactly if it is a
-- word with a slash in one of the lines. The mark (deleted) of hw1/README.md after such a word is not
-- looked at.
pub get_mem-listed :
    (P : Proc) (pid : Bytes) (lines : List Bytes)
    → P.access (proc_path pid "/maps") ≡ true
    → P.read_lines (proc_path pid "/maps") ≡ some lines
    → DistinctNames (get_mem P pid)
      × ((n : Bytes) → has_name (get_mem P pid) n ≡ (has_part (codes "/") n && in_lines n lines))
unfolding has_name
get_mem-listed P pid lines a r = rw (get_mem_lem P pid lines a r) (
  mem_lines-DistinctNames P (proc_path pid "/maps") [] lines tt,
  mem_lines-has_name P (proc_path pid "/maps") [] lines,
)
