-- ===== src/Lsof/Filters/Laws.antt =====
-- The searches of hw1/hw1.cpp against filters of a list.
use nctu_unix_programming.Base.{
  ℕ, zero, suc, ◌<◌, ◌≡◌, refl, sym, ap, ◌∙◌, Bool, true, false, ◌&&◌, none, some, List, [], ◌∷◌,
  ◌++◌, map, if◌then◌else◌, length, get_elem?, erase_at, keep_if, arith, Bool-cases, Option-cases,
  inl, inr, length-append, keep_if-append, keep_if-map, keep_if-keep_if, keep_if_all, keep_if_none,
}
use mathlib.Core.Path.{fun_ext}
use mathlib.Core.Option.{some-injective}
use mathlib.Core.List.{append_assoc}
use nctu_unix_programming.Base.Text.{Bytes}
use nctu_unix_programming.Lsof.Text.{is_empty}
use nctu_unix_programming.Lsof.Proc.{Proc}
use nctu_unix_programming.Lsof.Entries.{FileDescriptor, PidInfo}
use nctu_unix_programming.Lsof.Filters.{
  erase_loop, erase_unless, search_comm, search_type, search_file, with_files, filtered, Args, Row,
  row_of, print_all,
}

module _ {ℓ} {A : Type ℓ} (keep : A → Bool) where
  get_elem?-after :
      (done rest : List A) (x : A) → get_elem? (done ++ (x ∷ rest)) (length done) ≡ some x
  get_elem?-after [] rest x = refl
  get_elem?-after (y ∷ done) rest x = get_elem?-after done rest x

  get_elem?_end : (done : List A) → get_elem? (done ++ []) (length done) ≡ none
  get_elem?_end [] = refl
  get_elem?_end (y ∷ done) = get_elem?_end done

  erase_at-after :
      (done rest : List A) (x : A) → erase_at (length done) (done ++ (x ∷ rest)) ≡ done ++ rest
  erase_at-after [] rest x = refl
  erase_at-after (y ∷ done) rest x = ap (◌∷◌ y) (erase_at-after done rest x)

  erase_loop-keep_if :
      (fuel : ℕ) (done rest : List A)
      → length rest < fuel
      → erase_loop fuel keep (length done) (done ++ rest) ≡ done ++ keep_if keep rest
  unfolding erase_loop
  erase_loop-keep_if zero done rest h = elim h [ ]
  erase_loop-keep_if (suc fuel) done [] h = rw (get_elem?_end done, erase_loop)
  erase_loop-keep_if (suc fuel) done (x ∷ rest) h =
      rw (get_elem?-after done rest x, erase_loop)
        (elim (Bool-cases (keep x)) [
          | inl e ↦ rw e (
              rw
                (
                  append_assoc done (x ∷ []) rest,
                  append_assoc done (x ∷ []) (keep_if keep rest),
                  one_more,
                )
                at (erase_loop-keep_if fuel (done ++ (x ∷ [])) rest (omega arith)))
          | inr e ↦
              rw (e, erase_at-after done rest x) (erase_loop-keep_if fuel done rest (omega arith))
        ])
    where
      one_more : length (done ++ (x ∷ [])) ≡ suc (length done)
      one_more = omega (arith, length-append done (x ∷ []))

  -- The loop that erases in place keeps exactly the elements that pass, in order.
  pub erase_unless-keep_if : (v : List A) → erase_unless keep v ≡ keep_if keep v
  erase_unless-keep_if v = erase_loop-keep_if (suc (length v)) [] v (omega arith)

-- Whether a text passes a pattern: an empty pattern asks nothing.
abbrev pub passes : Proc → Bytes → Bytes → Bool
passes P pattern text =
    if is_empty pattern
    then true
    else elim (P.regex_search pattern) [ none ↦ true | some matches ↦ matches text ]

module _ (keep : Bytes → Bool) where
  print_all-comm :
      (ps : List PidInfo)
      → print_all (keep_if (λ (p : PidInfo). keep p.comm) ps)
        ≡ keep_if (λ (r : Row). keep r.comm) (print_all ps)
  unfolding print_all
  print_all-comm [] = refl
  print_all-comm (p ∷ ps) =
      rw (keep_if-append, keep_if-map)
        (elim (Bool-cases (keep p.comm)) [
          | inl e ↦ rw e (
              rw (
                keep_if_all (λ (f : FileDescriptor). true) p.file_desc (λ f. refl),
                print_all-comm ps,
              ))
          | inr e ↦ rw e (
              rw (
                keep_if_none (λ (f : FileDescriptor). false) p.file_desc (λ f. refl),
                print_all-comm ps,
              ))
        ])

print_all-files :
    (keep : FileDescriptor → Bool) (test : Row → Bool) (ps : List PidInfo)
    → ((p : PidInfo) (f : FileDescriptor) → test (row_of p f) ≡ keep f)
    → print_all (map (with_files keep) ps) ≡ keep_if test (print_all ps)
unfolding print_all
print_all-files keep test [] h = refl
print_all-files keep test (p ∷ ps) h = rw (
  keep_if-append,
  keep_if-map,
  fun_ext (h p),
  erase_unless-keep_if keep p.file_desc,
  print_all-files keep test ps h,
)

-- A search by a pattern, whatever it filters: `g` takes out what does not match, and `text` is the
-- part of a row that the pattern is held against.
search-rows :
    (P : Proc) (pattern : Bytes) (g : (Bytes → Bool) → List PidInfo) (text : Row → Bytes)
    (ps qs : List PidInfo)
    → ((m : Bytes → Bool) → print_all (g m) ≡ keep_if (λ r. m (text r)) (print_all ps))
    → (if is_empty pattern
        then some ps
        else elim (P.regex_search pattern) [ none ↦ none | some m ↦ some (g m) ])
      ≡ some qs
    → print_all qs ≡ keep_if (λ r. passes P pattern (text r)) (print_all ps)
search-rows P pattern g text ps qs law h = elim (Bool-cases (is_empty pattern)) [
  | inl e ↦ rw e (
      ap print_all (sym (some-injective _ _ (rw e at h)))
      ∙ sym (keep_if_all (λ (r : Row). true) (print_all ps) (λ r. refl)))
  | inr e ↦ elim (Option-cases (P.regex_search pattern)) [
    | inl f ↦ let none_found : none ≡ some qs = rw (e, f) at h in cc
    | inr (m, f) ↦ rw (e, f) (ap print_all (sym (some-injective _ _ (rw (e, f) at h))) ∙ law m)
  ]
]

search_comm-rows :
    (P : Proc) (pattern : Bytes) (ps qs : List PidInfo)
    → search_comm P pattern ps ≡ some qs
    → print_all qs ≡ keep_if (λ (r : Row). passes P pattern r.comm) (print_all ps)
unfolding search_comm
search_comm-rows P pattern ps qs h =
    search-rows P pattern _ (λ r. r.comm) ps qs
      (λ m. ap print_all (erase_unless-keep_if _ ps) ∙ print_all-comm m ps) h

search_type-rows :
    (P : Proc) (pattern : Bytes) (ps qs : List PidInfo)
    → search_type P pattern ps ≡ some qs
    → print_all qs ≡ keep_if (λ (r : Row). passes P pattern r.type) (print_all ps)
unfolding search_type
search_type-rows P pattern ps qs h =
    search-rows P pattern _ (λ r. r.type) ps qs (λ m. print_all-files _ _ ps (λ p f. refl)) h

search_file-rows :
    (P : Proc) (pattern : Bytes) (ps qs : List PidInfo)
    → search_file P pattern ps ≡ some qs
    → print_all qs ≡ keep_if (λ (r : Row). passes P pattern r.name) (print_all ps)
unfolding search_file
search_file-rows P pattern ps qs h =
    search-rows P pattern _ (λ r. r.name) ps qs (λ m. print_all-files _ _ ps (λ p f. refl)) h

-- Where each pattern is empty or a regular expression, so that the searches return, the rows that
-- are printed are exactly the rows that pass the three patterns, in the order in which they stood. The
-- pattern of -t is a regular expression like the others, whether or not it names a type: the code does
-- not refuse a TYPE that hw1/README.md calls invalid.
pub filtered-rows :
    (P : Proc) (a : Args) (lsof kept : List PidInfo)
    → filtered P a lsof ≡ some kept
    → print_all kept
      ≡ keep_if
          (λ (r : Row).
            (passes P a.arg_comm r.comm && passes P a.arg_type r.type)
            && passes P a.arg_file r.name)
          (print_all lsof)
unfolding filtered
filtered-rows P a lsof kept h = elim (Option-cases (search_comm P a.arg_comm lsof)) [
  | inl e ↦ let stuck : none ≡ some kept = rw (e, filtered) at h in cc
  | inr (c, e) ↦ elim (Option-cases (search_type P a.arg_type c)) [
    | inl f ↦ let stuck : none ≡ some kept = rw (e, f, filtered) at h in cc
    | inr (t, f) ↦
        search_file-rows P a.arg_file t kept (rw (e, f, filtered) at h)
        ∙ ap (keep_if by_file) (search_type-rows P a.arg_type c t f)
        ∙ ap (λ rows. keep_if by_file (keep_if by_type rows))
            (search_comm-rows P a.arg_comm lsof c e)
        ∙ ap (keep_if by_file) (keep_if-keep_if by_comm by_type (print_all lsof))
        ∙ keep_if-keep_if (λ r. by_comm r && by_type r) by_file (print_all lsof)
  ]
]
  where
    by_comm : Row → Bool
    by_comm r = passes P a.arg_comm r.comm

    by_type : Row → Bool
    by_type r = passes P a.arg_type r.type

    by_file : Row → Bool
    by_file r = passes P a.arg_file r.name
