-- ===== src/Sdb/Loader/Finishes.antt =====
-- The loop of get_orig_code of hw4/sdb.cpp, and its end.
use nctu_unix_programming.Base.{
  ℕ, zero, suc, ◌+◌, ◌-◌, ◌%◌, ◌<◌, ◌≡◌, refl, ◌++◌, true, some, [], ◌∷◌, ltb, take, arith,
  Bool-cases, Option-cases, inl, inr,
}
use nctu_unix_programming.Base.Text.{Bytes}
use nctu_unix_programming.Monad.{ok, ◌>>=◌}
use nctu_unix_programming.Sdb.Kernel.{Kernel, Insn}
use nctu_unix_programming.Sdb.Word.{word_size}
use nctu_unix_programming.Sdb.State.{ProgInfo, Debugger, text}
use nctu_unix_programming.Sdb.Loader.{
  code_at, to_instruction, disassemble, disassemble_from, get_orig_code,
}

-- Capstone gives instructions of 1 to 15 bytes.
abbrev pub Sized : Kernel → Type 0
Sized K =
    (code : Bytes) (addr : ℕ) (i : Insn)
    → K.cs_disasm code addr ≡ some i
    → (0 < i.size) × (i.size < 16)

module _ (K : Kernel) (sized : Sized K) where
  disassemble_from_ends :
      (fuel pid end addr : ℕ) (d : Debugger K)
      → end - addr < fuel
      → end + 16 < word_size
      → (d' : Debugger K) × (disassemble_from fuel pid end addr d ≡ ok tt d')
  unfolding disassemble_from disassemble
  disassemble_from_ends zero pid end addr d h b = absurd (omega arith)
  disassemble_from_ends (suc fuel) pid end addr d h b = elim (Bool-cases (ltb addr end)) [
    | inr e ↦ (d, rw (e, disassemble_from) refl)
    | inl e ↦ elim (Option-cases (K.cs_disasm (take 63 (code_at K d.world pid addr)) addr)) [
      | inl f ↦ (
        record d { err = text "** cs_disasm error.\n" ∷ d.err },
        rw (e, disassemble_from, ◌>>=◌, disassemble, f) refl,
      )
      | inr (i, f) ↦
          let rest =
            disassemble_from_ends fuel pid end ((addr + i.size) % word_size)
              (record d { orig_instructions = d.orig_instructions ++ (to_instruction addr i ∷ []) })
              (smaller addr end i.size fuel e (sized _ addr i f) h b) b in
          (rest.0, rw (e, disassemble_from, ◌>>=◌, disassemble, f) rest.1)
    ]
  ]
    where
      smaller :
          (a z n f : ℕ)
          → ltb a z ≡ true
          → (0 < n) × (n < 16)
          → z - a < suc f
          → z + 16 < word_size
          → z - (a + n) % word_size < f
      smaller a z n f l s h b = ground arith

  -- If instructions have from 1 to 15 bytes and the text ends 16 bytes below 2^64, get_orig_code
  -- returns.
  pub get_orig_code_ends :
      (i : ProgInfo) (d : Debugger K)
      → i.entry + i.size + 16 < word_size
      → (d' : Debugger K) × (get_orig_code i d ≡ ok tt d')
  unfolding get_orig_code
  get_orig_code_ends i d b = elim (Bool-cases (K.cs_open d.world)) [
    | inr e ↦ (record d { err = text "** cs_open error.\n" ∷ d.err }, rw e refl)
    | inl e ↦
        let rest =
          disassemble_from_ends (suc i.size) i.pid ((i.entry + i.size) % word_size) i.entry d
            (omega arith) (omega arith) in
        (rest.0, rw e rest.1)
  ]
