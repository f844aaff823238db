-- ===== src/Sdb/Breaks/Undo.antt =====
-- set_bp of hw4/sdb.cpp, undone by del_bp.
use nctu_unix_programming.Base.{
  ℕ, ◌<◌, ◌%◌, ◌^◌, ◌≡◌, refl, ap, ◌∙◌, false, some, List, [], ◌∷◌, ◌++◌, inl, inr, ◌==◌, length,
  get_elem?, erase_at, arith, Bool-cases, Option-cases,
}
use mathlib.Core.Path.{subst}
use nctu_unix_programming.Sdb.Kernel.{Kernel, IsLawful}
use nctu_unix_programming.Monad.{Returns, Returns-bind, Returns-weaken, ◌>>◌}
use nctu_unix_programming.Numbers.{pos, to_u64}
use nctu_unix_programming.Sdb.Word.{byte_of, patch, int3}
use nctu_unix_programming.Sdb.State.{Breakpoint, ProgInfo, Debugger, running, is_running_of}
use nctu_unix_programming.Sdb.Breaks.{has_bp, set_bp, set_bp_running, remove_bp, del_bp}
use nctu_unix_programming.Sdb.Breaks.Memory.{byte-patch}

get_elem?-append_last {ℓ} :
    {A : Type ℓ} (xs : List A) (x : A) → get_elem? (xs ++ (x ∷ [])) (length xs) ≡ some x
get_elem?-append_last [] x = refl
get_elem?-append_last (y ∷ xs) x = get_elem?-append_last xs x

erase_at-append_last {ℓ} :
    {A : Type ℓ} (xs : List A) (x : A) → erase_at (length xs) (xs ++ (x ∷ [])) ≡ xs
erase_at-append_last [] x = refl
erase_at-append_last (y ∷ xs) x = ap (◌∷◌ y) (erase_at-append_last xs x)

module _ (K : Kernel) (L : IsLawful K) where
  -- The low byte of a word is patched, and then patched back.
  byte-patch_back :
      (w w1 w2 : K.World) (p a : ℕ)
      → K.poke w p a (patch (K.peek w p a) int3) ≡ some w1
      → K.poke w1 p a (patch (K.peek w1 p a) (byte_of 0 (K.peek w p a))) ≡ some w2
      → (q x : ℕ) → L.byte w2 q x ≡ L.byte w q x
  byte-patch_back w w1 w2 p a h k q x = ground (
    arith,
    byte-patch K L w1 w2 p a (byte_of 0 (K.peek w p a)) q x (omega arith) k,
    byte-patch K L w w1 p a int3 q x (omega arith) h,
    L.peek-byte w p a 0 (L.peek_errno-poke w w1 p a _ h),
  )

  -- The entry that set_bp adds.
  abbrev new_bp : ℕ → Debugger K → Breakpoint
  new_bp addr d = record { addr = addr; orig_patch = byte_of 0 (K.peek d.world d.info.pid addr) }

  -- The word that arms an address was written.
  abbrev Armed : ℕ → Debugger K → Debugger K → Type 0
  Armed addr d d1 =
      (d1.info ≡ record (d.info) { bp_vec = d.info.bp_vec ++ (new_bp addr d ∷ []) })
      × (K.poke d.world d.info.pid addr (patch (K.peek d.world d.info.pid addr) int3)
          ≡ some d1.world)

  set_bp-Armed :
      (d : Debugger K) (addr : ℕ)
      → d.info.state ≡ running
      → has_bp d.info.bp_vec addr ≡ false
      → Returns (λ _ d1. Armed addr d d1) (set_bp addr d)
  unfolding set_bp set_bp_running
  set_bp-Armed d addr r e =
      elim (Option-cases
        (K.poke d.world d.info.pid addr (patch (K.peek d.world d.info.pid addr) int3))) [
          | inl f ↦ rw (is_running_of d.info.state r, e, f, Returns) refl
          | inr (w', f) ↦ rw (is_running_of d.info.state r, e, f, Returns) (refl, f)
        ]

  -- The word that puts a byte back was written, and its entry is gone.
  abbrev Disarmed : ℕ → Breakpoint → Debugger K → Debugger K → Type 0
  Disarmed i bp d d1 =
      (d1.info ≡ record (d.info) { bp_vec = erase_at i d.info.bp_vec })
      × (K.poke d.world d.info.pid bp.addr (patch (K.peek d.world d.info.pid bp.addr) bp.orig_patch)
          ≡ some d1.world)

  del_bp-Disarmed :
      (d : Debugger K) (i : ℕ) (bp : Breakpoint)
      → i < 2 ^ 64
      → get_elem? d.info.bp_vec i ≡ some bp
      → Returns (λ _ d1. Disarmed i bp d d1) (del_bp (pos i) d)
  unfolding del_bp remove_bp
  del_bp-Disarmed d i bp l found =
      let index : i % 2 ^ 64 ≡ i = omega (arith, l) in
      let erased : record (d.info) { bp_vec = erase_at (to_u64 (pos i)) d.info.bp_vec }
          ≡ record (d.info) { bp_vec = erase_at i d.info.bp_vec } =
        ap (λ (k : ℕ). record (d.info) { bp_vec = erase_at k d.info.bp_vec }) index in
      elim (Option-cases (
        K.poke d.world d.info.pid bp.addr
          (patch (K.peek d.world d.info.pid bp.addr) bp.orig_patch))) [
            | inl f ↦ elim (Bool-cases (d.bp_restore.addr == bp.addr)) [
              | inl e ↦ rw (index, found, e, f, Returns) refl
              | inr e ↦ rw (index, found, e, f, Returns) refl
            ]
            | inr (w', f) ↦ elim (Bool-cases (d.bp_restore.addr == bp.addr)) [
              | inl e ↦ rw (index, found, e, f, Returns) (erased, f)
              | inr e ↦ rw (index, found, e, f, Returns) (erased, f)
            ]
          ]

  restored_info :
      (d d1 : Debugger K) (addr : ℕ)
      → d1.info ≡ record (d.info) { bp_vec = d.info.bp_vec ++ (new_bp addr d ∷ []) }
      → record (d1.info) { bp_vec = erase_at (length d.info.bp_vec) d1.info.bp_vec } ≡ d.info
  restored_info d d1 addr same =
      ap (λ (i : ProgInfo). record i { bp_vec = erase_at (length d.info.bp_vec) i.bp_vec }) same
      ∙ ap (λ (bps : List Breakpoint). record (d.info) { bp_vec = bps })
          (erase_at-append_last d.info.bp_vec (new_bp addr d))

  -- On a running program, for an address that has no break point, set_bp and then del_bp of the entry
  -- that it has added end in errquit, or leave every byte of every process, the table and all other
  -- information as they were.
  pub set_bp-del_bp :
      (d : Debugger K) (addr : ℕ)
      → d.info.state ≡ running
      → has_bp d.info.bp_vec addr ≡ false
      → length d.info.bp_vec < 2 ^ 64
      → Returns
          (λ _ d'. (d'.info ≡ d.info) × ((q x : ℕ) → L.byte d'.world q x ≡ L.byte d.world q x))
          ((set_bp addr >> del_bp (pos (length d.info.bp_vec))) d)
  set_bp-del_bp d addr r e l =
      Returns-bind (λ _ d1. Armed addr d d1) _ (set_bp addr d) _ (set_bp-Armed d addr r e)
        λ _ d1 (same, armed).
          Returns-weaken (λ _ d'. Disarmed (length d.info.bp_vec) (new_bp addr d) d1 d') _
            (del_bp (pos (length d.info.bp_vec)) d1)
            (del_bp-Disarmed d1 (length d.info.bp_vec) (new_bp addr d) l (
              ap (λ (i : ProgInfo). get_elem? i.bp_vec (length d.info.bp_vec)) same
              ∙ get_elem?-append_last d.info.bp_vec (new_bp addr d)))
            λ _ d' (erased, disarmed). (
              erased ∙ restored_info d d1 addr same,
              byte-patch_back d.world d1.world d'.world d.info.pid addr armed (
                  subst
                    (λ (p : ℕ).
                      K.poke d1.world p addr (
                        patch (K.peek d1.world p addr) (byte_of 0 (K.peek d.world d.info.pid addr)))
                      ≡ some d'.world)
                    (ap (λ (i : ProgInfo). i.pid) same) disarmed),
            )
