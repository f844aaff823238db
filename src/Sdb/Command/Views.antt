-- ===== src/Sdb/Command/Views.antt =====
-- The commands of hw4/sdb.cpp that look at a program, and prog_info after them.
use nctu_unix_programming.Base.{
  ℕ, zero, suc, ◌≡◌, refl, sym, ap, none, some, List, [], ◌∷◌, ◌++◌, inl, inr, ltb, if◌then◌else◌,
  ◌+◌, ◌%◌, Bool-cases, Option-cases, set, take, length, drop,
}
use nctu_unix_programming.Base.Text.{Bytes, same, codes}
use nctu_unix_programming.Monad.{After}
use nctu_unix_programming.Sdb.Word.{word_size}
use nctu_unix_programming.Sdb.Kernel.{Kernel}
use nctu_unix_programming.Sdb.State.{
  say, ProgInfo, Breakpoint, Instruction1, Debugger, is_running, text, instruction,
}
use nctu_unix_programming.Sdb.Cont.{}
use nctu_unix_programming.Sdb.Loader.{
  code_at, to_instruction, disassemble, disassemble_from, get_orig_code,
}
use nctu_unix_programming.Sdb.Elf.{
  c_string, sh_name, scan_sections, read_sections, magic, e_shstrndx, e_shnum, ehdr_size,
  fresh_info, elf_read,
}
use nctu_unix_programming.Sdb.Show.{print_instructions, from_address, disasm, dump_rounds}
use nctu_unix_programming.Sdb.Maps.{Maps, print_maps, load_lines, vmmap, is_empty}
use nctu_unix_programming.Sdb.Regs.{print_reg, print_all_regs, set_reg, offset_of}
use nctu_unix_programming.Sdb.Command.Info.{Same}
use nctu_unix_programming.Sdb.Breaks.{list, list_from}
use nctu_unix_programming.Sdb.Breaks
use mathlib.Core.Option.{some-injective}

scan_sections-bp_vec :
    (filler : ℕ) (file names : Bytes) (n i : ℕ) (info r : ProgInfo)
    → scan_sections filler file names n i info ≡ some r
    → r.bp_vec ≡ info.bp_vec
unfolding scan_sections
scan_sections-bp_vec filler file names zero i info r h =
    ap (λ (x : ProgInfo). x.bp_vec) (sym (some-injective _ _ h))
scan_sections-bp_vec filler file names (suc n) i info r h =
    elim (Option-cases (c_string (drop (sh_name filler file i) names))) [
      | inl e ↦ let x : none ≡ some r = rw (e, scan_sections) at h in cc
      | inr (name, e) ↦ elim (Bool-cases (same name (codes ".text"))) [
        | inl f ↦
            scan_sections-bp_vec filler file names n (suc i) _ r (rw (e, f, scan_sections) at h)
        | inr f ↦
            scan_sections-bp_vec filler file names n (suc i) info r (rw (e, f, scan_sections) at h)
      ]
    ]

read_sections-bp_vec :
    (filler : ℕ) (file : Bytes) (r : ProgInfo) → read_sections filler file ≡ some r → r.bp_vec ≡ []
unfolding read_sections
read_sections-bp_vec filler file r h = elim (Bool-cases (magic file)) [
  | inr e ↦ ap (λ (x : ProgInfo). x.bp_vec) (sym (some-injective _ _ (rw (e, read_sections) at h)))
  | inl e ↦ elim (Bool-cases (ltb (e_shstrndx filler file) (e_shnum filler file))) [
    | inl f ↦
        scan_sections-bp_vec filler file _ _ 0 (fresh_info filler) r (rw (e, f, read_sections) at h)
    | inr f ↦ let x : none ≡ some r = rw (e, f, read_sections) at h in cc
  ]
]

module _ {K : Kernel} where
  disassemble_from-Same :
      (fuel pid end addr : ℕ) (d : Debugger K) → Same d.info (disassemble_from fuel pid end addr d)
  unfolding disassemble_from disassemble
  disassemble_from-Same zero pid end addr d = tt
  disassemble_from-Same (suc fuel) pid end addr d = elim (Bool-cases (ltb addr end)) [
    | inr e ↦ rw (e, After) refl
    | inl e ↦
        rw (e, After)
          (elim (Option-cases (K.cs_disasm (take 63 (code_at K d.world pid addr)) addr)) [
            | inl f ↦ rw (f, After) refl
            | inr (i, f) ↦
                rw (f, After)
                  (disassemble_from-Same fuel pid end ((addr + i.size) % word_size) (record d {
                    orig_instructions = d.orig_instructions ++ (to_instruction addr i ∷ []);
                  }))
          ])
  ]

  pub get_orig_code-Same : (i : ProgInfo) (d : Debugger K) → Same d.info (get_orig_code i d)
  unfolding get_orig_code
  get_orig_code-Same i d = elim (Bool-cases (K.cs_open d.world)) [
    | inr e ↦ rw (e, After) refl
    | inl e ↦
        rw (e, After)
          (disassemble_from-Same (suc i.size) i.pid ((i.entry + i.size) % word_size) i.entry d)
  ]

  pub elf_read-bp_vec :
      (path : Bytes) (d : Debugger K)
      → After (λ i d'. (i.bp_vec ≡ []) × (d'.info ≡ d.info)) (elf_read path d)
  unfolding elf_read
  elf_read-bp_vec path d = elim (Option-cases (K.read_file d.world path)) [
    | inl e ↦ rw (e, After) tt
    | inr (file, e) ↦
        rw (e, After)
          (elim (Bool-cases (ltb (length file) ehdr_size)) [
            | inl f ↦ rw (f, After) tt
            | inr f ↦
                rw (f, After)
                  (elim (Option-cases (read_sections K.indeterminate file)) [
                    | inl g ↦ rw (g, After) tt
                    | inr (i, g) ↦
                        rw (g, After) (read_sections-bp_vec K.indeterminate file i g, refl)
                  ])
          ])
  ]

  print_instructions-Same :
      (is : List Instruction1) (d : Debugger K) → Same d.info (print_instructions is d)
  unfolding print_instructions
  print_instructions-Same [] d = refl
  print_instructions-Same (i ∷ is) d =
      print_instructions-Same is (record d { err = instruction i ∷ d.err })

  pub disasm-Same : (addr : ℕ) (d : Debugger K) → Same d.info (disasm addr d)
  unfolding disasm
  disasm-Same addr d = elim (Bool-cases (is_running d.info.state)) [
    | inr e ↦ rw (e, After) refl
    | inl e ↦
        rw (e, After)
          (elim (Bool-cases (K.cs_open d.world)) [
            | inr f ↦ rw (f, After) refl
            | inl f ↦
                rw (f, After)
                  (elim (Option-cases (from_address d.orig_instructions addr)) [
                    | inl g ↦ rw (g, After) refl
                    | inr (is, g) ↦ rw (g, After) (print_instructions-Same (take 10 is) d)
                  ])
          ])
  ]

  pub dump_rounds-Same : (n addr : ℕ) (d : Debugger K) → Same d.info (dump_rounds n addr d)
  unfolding dump_rounds
  dump_rounds-Same zero addr d = refl
  dump_rounds-Same (suc n) addr d =
      dump_rounds-Same n (((addr + 8) % word_size + 8) % word_size) (record d { err = _ })

  print_maps-Same : (es : Maps) (d : Debugger K) → Same d.info (print_maps es d)
  unfolding print_maps
  print_maps-Same [] d = refl
  print_maps-Same ((k, e) ∷ es) d = print_maps-Same es (record d { err = _ })

  pub vmmap-Same : (d : Debugger K) → Same d.info (vmmap d)
  unfolding vmmap
  vmmap-Same d = elim (Bool-cases (is_running d.info.state)) [
    | inr e ↦ rw (e, After) refl
    | inl e ↦
        rw (e, After)
          (elim (Option-cases (K.proc_maps d.world d.info.pid)) [
            | inl f ↦ rw (f, After) refl
            | inr (lines, f) ↦
                rw (f, After)
                  (elim (Option-cases (load_lines K.indeterminate [] lines)) [
                    | inl g ↦ rw (g, After) tt
                    | inr (es, g) ↦
                        rw (g, After)
                          (elim (Bool-cases (is_empty es)) [
                            | inl h ↦ rw (h, After) refl
                            | inr h ↦ rw (h, After) (print_maps-Same es d)
                          ])
                  ])
          ])
  ]

  list_from-Same :
      (i : ℕ) (bps : List Breakpoint) (d : Debugger K) → Same d.info (list_from i bps d)
  unfolding list_from
  list_from-Same i [] d = refl
  list_from-Same i (bp ∷ bps) d = list_from-Same (suc i) bps (record d { err = _ })

  pub list-Same : (d : Debugger K) → Same d.info (list d)
  unfolding list
  list-Same d = list_cases d.info.bp_vec
    where
      list_cases :
          (bps : List Breakpoint)
          → Same d.info (
              (if Breaks.is_empty bps
                then say (text "** No breakpoint\n") d
                else list_from 0 bps d))
      list_cases [] = refl
      list_cases (bp ∷ bps) = list_from-Same 0 (bp ∷ bps) d

  pub print_reg-Same : (reg : Bytes) (d : Debugger K) → Same d.info (print_reg reg d)
  unfolding print_reg
  print_reg-Same reg d = elim (Bool-cases (is_running d.info.state)) [
    | inr e ↦ rw (e, After) refl
    | inl e ↦
        rw (e, After)
          (elim (Option-cases (K.get_regs d.world d.info.pid)) [
            | inl f ↦ rw (f, After) tt
            | inr (regs, f) ↦
                rw (f, After)
                  (elim (Option-cases (offset_of reg)) [
                    | inl g ↦ rw (g, After) refl
                    | inr (o, g) ↦ rw (g, After) refl
                  ])
          ])
  ]

  pub print_all_regs-Same : (d : Debugger K) → Same d.info (print_all_regs d)
  unfolding print_all_regs
  print_all_regs-Same d = elim (Bool-cases (is_running d.info.state)) [
    | inr e ↦ rw (e, After) refl
    | inl e ↦
        rw (e, After)
          (elim (Option-cases (K.get_regs d.world d.info.pid)) [
            | inl f ↦ rw (f, After) tt
            | inr (regs, f) ↦ rw (f, After) refl
          ])
  ]

  pub set_reg-Same : (reg : Bytes) (val : ℕ) (d : Debugger K) → Same d.info (set_reg reg val d)
  unfolding set_reg
  set_reg-Same reg val d = elim (Bool-cases (is_running d.info.state)) [
    | inr e ↦ rw (e, After) refl
    | inl e ↦
        rw (e, After)
          (elim (Option-cases (K.get_regs d.world d.info.pid)) [
            | inl f ↦ rw (f, After) tt
            | inr (regs, f) ↦
                rw (f, After)
                  (elim (Option-cases (offset_of reg)) [
                    | inl g ↦ rw (g, After) refl
                    | inr (o, g) ↦
                        rw (g, After)
                          (elim (Option-cases (K.set_regs d.world d.info.pid (set regs o val))) [
                            | inl k ↦ rw (k, After) refl
                            | inr (w, k) ↦ rw (k, After) refl
                          ])
                  ])
          ])
  ]
