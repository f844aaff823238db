-- ===== src/Sdb/Split/Laws.antt =====
-- splitStr2Vec of hw4/sdb.cpp against a reading of the text byte by byte.
use nctu_unix_programming.Base.{
  ℕ, zero, suc, ◌<◌, ◌≡◌, refl, ◌∙◌, ap, true, false, none, some, List, [], ◌∷◌, ◌++◌,
  if◌then◌else◌, length, take, drop, arith, Bool-cases, Option-cases, inl, inr, All, length-drop,
  sym, ◌≢◌,
}
use nctu_unix_programming.Base.Text.{Bytes}
use nctu_unix_programming.Sdb.Split.{contains, find_first_of, pushed, split_loop, split_str2_vec}
use mathlib.Core.List.{append_assoc, append-nil}

-- The maximal runs of bytes that are no separator, read from left to right; `run` is the run so far.
unfoldable pub runs : Bytes → Bytes → Bytes → List Bytes
runs seps run [] = pushed run
runs seps run (c ∷ s) =
    let closed = pushed run ++ runs seps [] s in
    let longer = runs seps (run ++ (c ∷ [])) s in if contains seps c then closed else longer

runs-nil : (seps : Bytes) → runs seps [] [] ≡ []
unfolding runs
runs-nil seps = refl

runs-none : (seps run s : Bytes) → find_first_of seps s ≡ none → runs seps run s ≡ pushed (run ++ s)
unfolding runs find_first_of
runs-none seps run [] h = rw append-nil
runs-none seps run (c ∷ s) h = elim (Bool-cases (contains seps c)) [
  | inl e ↦ ground arith
  | inr e ↦
      rw e (
        runs-none seps (run ++ (c ∷ [])) s (ground arith) ∙ ap pushed (append_assoc run (c ∷ []) s))
]

runs-some :
    (seps run s : Bytes) (i : ℕ)
    → find_first_of seps s ≡ some i
    → runs seps run s ≡ pushed (run ++ take i s) ++ runs seps [] (drop (suc i) s)
unfolding runs find_first_of
runs-some seps run [] i h = ground arith
runs-some seps run (c ∷ s) zero h = elim (Bool-cases (contains seps c)) [
  | inl e ↦ rw (e, append-nil)
  | inr e ↦ ground arith
]
runs-some seps run (c ∷ s) (suc i) h = elim (Bool-cases (contains seps c)) [
  | inl e ↦ ground arith
  | inr e ↦ rw e (
      runs-some seps (run ++ (c ∷ [])) s i (ground arith)
      ∙ ap (λ (t : Bytes). pushed t ++ runs seps [] (drop (suc i) s))
          (append_assoc run (c ∷ []) (take i s)))
]

split_loop-runs :
    (fuel : ℕ) (seps rest : Bytes)
    → length rest < fuel
    → split_loop fuel seps rest ≡ some (runs seps [] rest)
unfolding split_loop
split_loop-runs zero seps rest h = elim h [ ]
split_loop-runs (suc fuel) seps [] h = rw runs-nil
split_loop-runs (suc fuel) seps (c ∷ s) h = elim (Option-cases (find_first_of seps (c ∷ s))) [
  | inl e ↦ rw (e, split_loop) (ap some (sym (runs-none seps [] (c ∷ s) e)))
  | inr (i, e) ↦
      rw (e, split_loop, split_loop-runs fuel seps (drop i s) (omega (arith, length-drop i s)))
        (ap some (sym (runs-some seps [] (c ∷ s) i e)))
]

-- `splitStr2Vec` returns the maximal runs of bytes that are no separator, in order, for every text.
pub split_str2_vec-runs : (s seps : Bytes) → split_str2_vec s seps ≡ some (runs seps [] s)
unfolding split_str2_vec
split_str2_vec-runs s seps = split_loop-runs (suc (length s)) seps s (omega arith)

-- A word that can be typed: not empty, and with no separator in it.
abbrev pub IsWord : Bytes → Bytes → Type 0
IsWord seps w = (w ≢ []) × All (λ c. contains seps c ≡ false) w

abbrev pub join : ℕ → List Bytes → Bytes
join sep [] = []
join sep (w ∷ ws) = w ++ (sep ∷ join sep ws)

runs-word :
    (seps run w rest : Bytes)
    → All (λ c. contains seps c ≡ false) w
    → runs seps run (w ++ rest) ≡ runs seps (run ++ w) rest
unfolding runs
runs-word seps run [] rest h = rw append-nil
runs-word seps run (c ∷ w) rest h = rw h.0 (
    runs-word seps (run ++ (c ∷ [])) w rest h.1
    ∙ ap (λ (t : Bytes). runs seps t rest) (append_assoc run (c ∷ []) w))

runs-join :
    (seps : Bytes) (sep : ℕ) (ws : List Bytes)
    → contains seps sep ≡ true
    → All (IsWord seps) ws
    → runs seps [] (join sep ws) ≡ ws
unfolding runs
runs-join seps sep [] hs h = runs-nil seps
runs-join seps sep ([] ∷ ws) hs h = absurd (h.0.0 refl)
runs-join seps sep ((c ∷ w) ∷ ws) hs h =
    runs-word seps [] (c ∷ w) (sep ∷ join sep ws) h.0.1
    ∙ rw hs (ap (◌∷◌ (c ∷ w)) (runs-join seps sep ws hs h.1))

-- Splitting a text of non-empty words without separators, each followed by one separator byte,
-- gives back the words.
pub split_str2_vec-join :
    (seps : Bytes) (sep : ℕ) (ws : List Bytes)
    → contains seps sep ≡ true
    → All (IsWord seps) ws
    → split_str2_vec (join sep ws) seps ≡ some ws
split_str2_vec-join seps sep ws hs h =
    split_str2_vec-runs (join sep ws) seps ∙ ap some (runs-join seps sep ws hs h)
