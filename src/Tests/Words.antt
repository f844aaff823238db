-- ===== src/Tests/Words.antt =====
-- Words of a line, words of memory, and the text that the logger shows.
use nctu_unix_programming.Base.{
  ℕ, zero, suc, ◌<◌, ◌≡◌, refl, ◌≢◌, ap, some, none, [], ◌∷◌, ltb, keep_if, length, arith, ◌==◌,
  if◌then◌else◌,
}
use nctu_unix_programming.Base.Text.{Bytes, codes}
use nctu_unix_programming.Sdb.Split.{split_str2_vec}
use nctu_unix_programming.Sdb.Split.Laws.{runs, split_str2_vec-runs, split_str2_vec-join}
use nctu_unix_programming.Sdb.Word.{byte_of, patch, int3}
use nctu_unix_programming.Sdb.Word.Laws.{byte_of-patch}
use nctu_unix_programming.Lsof.Filters.{erase_unless}
use nctu_unix_programming.Lsof.Filters.Laws.{erase_unless-keep_if}
use nctu_unix_programming.Logger.Checkbuf.{
  checkbuf, c_text, length-checkbuf, checkbuf_unterminated, checkbuf-shown,
}

split_str2_vec-runs_example :
    split_str2_vec (codes "b  0x14") (codes " ") ≡ some (runs (codes " ") [] (codes "b  0x14"))
split_str2_vec-runs_example = split_str2_vec-runs (codes "b  0x14") (codes " ")

letter_ne : (c : ℕ) (s : Bytes) → (c ∷ s) ≢ []
letter_ne c s h =
    let x : suc (length s) ≡ 0 = ap (λ (t : Bytes). length t) h in absurd (omega arith)

split_str2_vec-join_example :
    split_str2_vec (codes "set rax 5 ") (codes " ")
    ≡ some (codes "set" ∷ codes "rax" ∷ codes "5" ∷ [])
split_str2_vec-join_example =
    split_str2_vec-join (codes " ") 32 (codes "set" ∷ codes "rax" ∷ codes "5" ∷ []) refl (
      (letter_ne b's' (codes "et"), (refl, (refl, (refl, tt)))),
      (
        (letter_ne b'r' (codes "ax"), (refl, (refl, (refl, tt)))),
        ((letter_ne b'5' [], (refl, tt)), tt),
      ),
    )

byte_of-patch_example :
    byte_of 3 (patch 0x1122334455667788 int3)
    ≡ (if 3 == 0 then int3 else byte_of 3 0x1122334455667788)
byte_of-patch_example =
    byte_of-patch 3 0x1122334455667788 int3 (omega arith) (omega arith) (omega arith)

erase_unless-keep_if_example :
    erase_unless (ltb 2) (1 ∷ 2 ∷ 3 ∷ 1 ∷ 4 ∷ []) ≡ keep_if (ltb 2) (1 ∷ 2 ∷ 3 ∷ 1 ∷ 4 ∷ [])
erase_unless-keep_if_example = erase_unless-keep_if (ltb 2) (1 ∷ 2 ∷ 3 ∷ 1 ∷ 4 ∷ [])

-- Two letters, a byte that is not printed as it is, and zeros.
abbrev buffer : ℕ → ℕ
buffer zero = b'h'
buffer (suc zero) = b'i'
buffer (suc (suc zero)) = 200
buffer (suc (suc (suc i))) = 0

buffer-ne : (k : ℕ) → k < 3 → buffer k ≢ 0
buffer-ne zero h = λ e. omega arith
buffer-ne (suc zero) h = λ e. omega arith
buffer-ne (suc (suc zero)) h = λ e. omega arith
buffer-ne (suc (suc (suc k))) h = absurd (omega arith)

length-checkbuf_example : length (checkbuf buffer) ≡ 32
length-checkbuf_example = length-checkbuf buffer

checkbuf-shown_example : c_text (checkbuf buffer) ≡ some (b'h' ∷ b'i' ∷ b'.' ∷ [])
checkbuf-shown_example = checkbuf-shown buffer 3 (omega arith) refl buffer-ne

checkbuf_unterminated_example : c_text (checkbuf (λ i. 7)) ≡ none
checkbuf_unterminated_example = checkbuf_unterminated (λ i. 7) (λ k h e. omega arith)
