-- ===== src/Sdb/Maps/Laws.antt =====
-- load_maps of hw4/ptools.cpp on the mappings of a process, whose ranges do not overlap.
use nctu_unix_programming.Base.{
  ℕ, ◌<◌, ◌≤◌, ◌≡◌, refl, ap, ◌⊎◌, inl, inr, true, false, Option, none, some, List, [], ◌∷◌, ◌++◌,
  All, arith, Bool-cases,
}
use mathlib.Core.List.{Perm, perm_middle, append-nil}
use mathlib.Core.List.Perm
use nctu_unix_programming.Base.Text.{Bytes}
use nctu_unix_programming.Sdb.Maps.{
  Range, MapEntry, Maps, range_lt, parse_line, insert_entry, load_lines,
}

abbrev pub IsProper : Range → Type 0
IsProper r = r.begin < r.end

abbrev pub Before : Range → Range → Type 0
Before a b = a.end ≤ b.begin

abbrev pub Apart : Range → Range → Type 0
Apart a b = Before a b ⊎ Before b a

-- Ascending ranges that do not overlap.
abbrev pub Ascending : Maps → Type 0
Ascending [] = Unit
Ascending ((k, e) ∷ es) = All (λ (p : Range × MapEntry). Before k p.0) es × Ascending es

abbrev pub keyed : List MapEntry → Maps
keyed [] = []
keyed (m ∷ ms) = (m.range, m) ∷ keyed ms

-- Lines that can be read, and their entries.
abbrev pub Reads : ℕ → List Bytes → List MapEntry → Type 0
Reads filler [] [] = Unit
Reads filler (line ∷ lines) (m ∷ ms) = (parse_line filler line ≡ some m) × Reads filler lines ms
Reads filler lines ms = ⊥

-- The ranges are not empty, and no two of them overlap.
abbrev pub Separate : List MapEntry → Type 0
Separate [] = Unit
Separate (m ∷ ms) =
    IsProper m.range × All (λ (x : MapEntry). Apart x.range m.range) ms × Separate ms

-- What operator< tells of two ranges that do not overlap.
lt-Before : (a b : Range) → IsProper a → IsProper b → Apart a b → range_lt a b ≡ true → Before a b
lt-Before a b p q (inl h) e = h
lt-Before a b p q (inr h) e = absurd (ground arith)

ge-Before : (a b : Range) → IsProper a → IsProper b → Apart a b → range_lt a b ≡ false → Before b a
ge-Before a b p q (inl h) e = absurd (ground arith)
ge-Before a b p q (inr h) e = h

Before-lt : (a b : Range) → IsProper a → IsProper b → Before a b → range_lt a b ≡ true
Before-lt a b p q h = ground arith

-- A key that does not overlap the keys of a map.
abbrev Fresh : Range → Maps → Type 0
Fresh key es = All (λ (p : Range × MapEntry). IsProper p.0 × Apart key p.0) es

Before-trans :
    (key k : Range) (es : Maps)
    → Before key k
    → IsProper k
    → All (λ (p : Range × MapEntry). Before k p.0) es
    → All (λ (p : Range × MapEntry). Before key p.0) es
Before-trans key k [] b p h = tt
Before-trans key k (e ∷ es) b p h = (omega (arith, h.0), Before-trans key k es b p h.1)

-- A new key goes before the first entry, or after it.
insert_before :
    (key k : Range) (m e : MapEntry) (es : Maps)
    → range_lt key k ≡ true
    → insert_entry key m ((k, e) ∷ es) ≡ (key, m) ∷ (k, e) ∷ es
unfolding insert_entry
insert_before key k m e es h = rw h refl

insert_after :
    (key k : Range) (m e : MapEntry) (es : Maps)
    → range_lt key k ≡ false
    → range_lt k key ≡ true
    → insert_entry key m ((k, e) ∷ es) ≡ (k, e) ∷ insert_entry key m es
unfolding insert_entry
insert_after key k m e es h l = rw (h, l) refl

module _ (key : Range) (m : MapEntry) (proper : IsProper key) where
  after : (k : Range) → IsProper k → Apart key k → range_lt key k ≡ false → range_lt k key ≡ true
  after k p a h = Before-lt k key p proper (ge-Before key k proper p a h)

  insert-Perm : (es : Maps) → Fresh key es → Perm ((key, m) ∷ es) (insert_entry key m es)
  unfolding insert_entry
  insert-Perm [] f = Perm.refl _
  insert-Perm ((k, e) ∷ es) f = elim (Bool-cases (range_lt key k)) [
    | inl h ↦ rw (insert_before key k m e es h) (Perm.refl _)
    | inr h ↦
        rw (insert_after key k m e es h (after k f.0.0 f.0.1 h))
          (Perm.trans (Perm.swap (k, e) (key, m) es) (Perm.cons (k, e) (insert-Perm es f.1)))
  ]

  insert-All :
      (P : Range × MapEntry → Type 0) (es : Maps)
      → Fresh key es
      → P (key, m)
      → All P es
      → All P (insert_entry key m es)
  unfolding insert_entry
  insert-All P [] f p ps = (p, tt)
  insert-All P ((k, e) ∷ es) f p ps = elim (Bool-cases (range_lt key k)) [
    | inl h ↦ rw (insert_before key k m e es h) (p, ps)
    | inr h ↦
        rw (insert_after key k m e es h (after k f.0.0 f.0.1 h)) (ps.0, insert-All P es f.1 p ps.1)
  ]

  insert-Ascending : (es : Maps) → Fresh key es → Ascending es → Ascending (insert_entry key m es)
  unfolding insert_entry
  insert-Ascending [] f s = (tt, tt)
  insert-Ascending ((k, e) ∷ es) f s = elim (Bool-cases (range_lt key k)) [
    | inl h ↦ rw (insert_before key k m e es h) (
        let b = lt-Before key k proper f.0.0 f.0.1 h in ((b, Before-trans key k es b f.0.0 s.0), s))
    | inr h ↦ rw (insert_after key k m e es h (after k f.0.0 f.0.1 h)) (
      insert-All (λ p. Before k p.0) es f.1 (ge-Before key k proper f.0.0 f.0.1 h) s.0,
      insert-Ascending es f.1 s.1,
    )
  ]

-- A map was loaded, and it has a property.
abbrev pub Loads : (Maps → Type 0) → Option Maps → Type 0
Loads P none = ⊥
Loads P (some es) = P es

-- What holds of a map while entries are still to come.
abbrev Open : List MapEntry → Maps → Type 0
Open ms es =
    All (λ (p : Range × MapEntry). IsProper p.0 × All (λ (x : MapEntry). Apart x.range p.0) ms) es

Open-Fresh : (m : MapEntry) (ms : List MapEntry) (es : Maps) → Open (m ∷ ms) es → Fresh m.range es
Open-Fresh m ms [] h = tt
Open-Fresh m ms (e ∷ es) h = ((h.0.0, h.0.1.0), Open-Fresh m ms es h.1)

Open-tail : (m : MapEntry) (ms : List MapEntry) (es : Maps) → Open (m ∷ ms) es → Open ms es
Open-tail m ms [] h = tt
Open-tail m ms (e ∷ es) h = ((h.0.0, h.0.1.1), Open-tail m ms es h.1)

load_lines_step :
    (filler : ℕ) (line : Bytes) (lines : List Bytes) (m : MapEntry) (es : Maps)
    → parse_line filler line ≡ some m
    → load_lines filler es (line ∷ lines) ≡ load_lines filler (insert_entry m.range m es) lines
unfolding load_lines
load_lines_step filler line lines m es h =
    ap
      (λ (o : Option MapEntry). elim o [
        | none ↦ none
        | some x ↦ load_lines filler (insert_entry x.range x es) lines
      ])
      h

load_lines_end : (filler : ℕ) (es : Maps) → load_lines filler es [] ≡ some es
unfolding load_lines
load_lines_end filler es = refl

Loads-weaken :
    (P Q : Maps → Type 0) (o : Option Maps) → Loads P o → ((es : Maps) → P es → Q es) → Loads Q o
Loads-weaken P Q none h f = h
Loads-weaken P Q (some es) h f = f es h

load_lines-Loads :
    (filler : ℕ) (lines : List Bytes) (ms : List MapEntry) (es : Maps)
    → Reads filler lines ms
    → Separate ms
    → Open ms es
    → Ascending es
    → Loads (λ es'. Ascending es' × Perm (keyed ms ++ es) es') (load_lines filler es lines)
load_lines-Loads filler [] [] es e s o a = rw (load_lines_end filler es) (a, Perm.refl es)
load_lines-Loads filler [] (m ∷ ms) es e s o a = elim e [ ]
load_lines-Loads filler (line ∷ lines) [] es e s o a = elim e [ ]
load_lines-Loads filler (line ∷ lines) (m ∷ ms) es e s o a =
    let fresh = Open-Fresh m ms es o in
    let next = insert_entry m.range m es in
    rw (load_lines_step filler line lines m es e.0) (
      Loads-weaken (λ es'. Ascending es' × Perm (keyed ms ++ next) es') _
        (load_lines filler next lines)
        (load_lines-Loads filler lines ms next e.1 s.2
          (insert-All m.range m s.0
            (λ p. IsProper p.0 × All (λ (x : MapEntry). Apart x.range p.0) ms) es fresh (s.0, s.1)
            (Open-tail m ms es o))
          (insert-Ascending m.range m s.0 es fresh a))
        λ es' h. (
          h.0,
          Perm.trans (Perm.symm (perm_middle (keyed ms) es))
              (Perm.trans (Perm.append_left (keyed ms) (insert-Perm m.range m s.0 es fresh)) h.1),
        ))

-- For lines that can all be read, whose ranges are not empty and do not overlap, in any order:
-- load_maps gives a map of exactly their entries, each once and under its range, in ascending order of
-- the ranges.
pub load_lines-Ascending :
    (filler : ℕ) (lines : List Bytes) (ms : List MapEntry)
    → Reads filler lines ms
    → Separate ms
    → Loads (λ es. Ascending es × Perm (keyed ms) es) (load_lines filler [] lines)
load_lines-Ascending filler lines ms e s =
    Loads-weaken (λ es. Ascending es × Perm (keyed ms ++ []) es) _ (load_lines filler [] lines)
      (load_lines-Loads filler lines ms [] e s tt tt) λ es h. (h.0, rw append-nil at h.1)
