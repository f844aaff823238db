-- ===== src/Sdb/Breaks/Refines.antt =====
-- set_bp and del_bp of hw4/sdb.cpp against a program and a set of break points.
use nctu_unix_programming.Base.{
  ℕ, ◌<◌, ◌≡◌, refl, Bool, true, false, ◌||◌, none, some, [], ◌∷◌, ◌++◌, ◌⊎◌, inl, inr, ◌==◌,
  if◌then◌else◌, get_elem?, erase_at, arith, Bool-cases, Option-cases, All, All-append,
}
use nctu_unix_programming.Sdb.Kernel.{Kernel, IsLawful}
use nctu_unix_programming.Monad.{ok, Returns}
use nctu_unix_programming.Numbers.{ℤ, to_u64}
use nctu_unix_programming.Sdb.Word.{byte_of, patch, int3}
use nctu_unix_programming.Sdb.State.{
  breakpoint_deleted, Breakpoint, no_breakpoint, Debugger, running, is_running_of,
}
use nctu_unix_programming.Sdb.Breaks.{has_bp, set_bp, set_bp_running, remove_bp, del_bp}
use nctu_unix_programming.Sdb.Breaks.Table.{
  Distinct, has_bp-append, Distinct-append, has_bp-erase_at, Distinct-erase_at, All-erase_at,
  All-get_elem?,
}
use nctu_unix_programming.Sdb.Breaks.Memory.{byte-patch}

-- An entry of the table keeps the byte that the program has at a code address.
abbrev pub Keeps : (ℕ → Bool) → (ℕ → ℕ) → Breakpoint → Type 0
Keeps code prog bp = (code bp.addr ≡ true) × (bp.orig_patch ≡ prog bp.addr)

-- The debugger shows a program, whose bytes at code addresses are `prog`, with break points patched in.
pub record Shows (K : Kernel) (L : IsLawful K) (code : ℕ → Bool) (prog : ℕ → ℕ) (d : Debugger K)
    : Type 0 where
  pub shown :
      (x : ℕ)
      → code x ≡ true
      → L.byte d.world d.info.pid x ≡ (if has_bp d.info.bp_vec x then int3 else prog x)
  pub kept : All (Keeps code prog) d.info.bp_vec
  pub distinct : Distinct d.info.bp_vec
  pub restorable :
      (d.bp_restore ≡ no_breakpoint)
      ⊎ ((has_bp d.info.bp_vec d.bp_restore.addr ≡ true) × Keeps code prog d.bp_restore)

module _ (K : Kernel) (L : IsLawful K) (code : ℕ → Bool) (prog : ℕ → ℕ) where
  module _ (d : Debugger K) (addr : ℕ) (s : Shows K L code prog d) (c : code addr ≡ true) where
    new_bp : Breakpoint
    new_bp = record { addr = addr; orig_patch = byte_of 0 (K.peek d.world d.info.pid addr) }

    armed : K.World → Debugger K
    armed w' = record d {
      info = record (d.info) { bp_vec = d.info.bp_vec ++ (new_bp ∷ []) };
      world = w';
    }

    armed-Shows :
        (w' : K.World)
        → has_bp d.info.bp_vec addr ≡ false
        → K.poke d.world d.info.pid addr (patch (K.peek d.world d.info.pid addr) int3) ≡ some w'
        → Shows K L code prog (armed w')
    unfolding armed new_bp
    armed-Shows w' n h = record {
      shown = λ x cx. ground (
        arith,
        byte-patch K L d.world w' d.info.pid addr int3 d.info.pid x (omega arith) h,
        has_bp-append d.info.bp_vec new_bp x,
        s.shown x cx,
      );
      kept = All-append (Keeps code prog) d.info.bp_vec (new_bp ∷ []) s.kept ((c, original), tt);
      distinct = Distinct-append d.info.bp_vec new_bp s.distinct n;
      restorable =
          ground (arith, s.restorable, has_bp-append d.info.bp_vec new_bp d.bp_restore.addr);
    }
      where
        original : byte_of 0 (K.peek d.world d.info.pid addr) ≡ prog addr
        original = ground (
          arith,
          L.peek-byte d.world d.info.pid addr 0 (L.peek_errno-poke d.world w' d.info.pid addr _ h),
          s.shown addr c,
        )

    -- Where the debugger shows a program with its break points, set_bp of a code address on a
    -- running program ends in errquit, or shows the same program with the address added to the set
    -- of break points.
    pub set_bp-Shows :
        d.info.state ≡ running
        → Returns
            (λ _ d'.
              Shows K L code prog d'
              × ((x : ℕ) → has_bp d'.info.bp_vec x ≡ (addr == x || has_bp d.info.bp_vec x)))
            (set_bp addr d)
    unfolding set_bp armed new_bp
    set_bp-Shows r =
        rw (is_running_of d.info.state r, set_bp)
          (elim (Bool-cases (has_bp d.info.bp_vec addr)) [
            | inl e ↦ rw (e, set_bp_running) (s, λ x. ground arith)
            | inr e ↦
                elim (Option-cases
                  (K.poke d.world d.info.pid addr (patch (K.peek d.world d.info.pid addr) int3))) [
                    | inl f ↦ rw (e, f, set_bp_running) refl
                    | inr (w', f) ↦
                        rw (e, f, set_bp_running)
                          (armed-Shows w' e f, has_bp-append d.info.bp_vec new_bp)
                  ]
          ])

module _ (K : Kernel) (L : IsLawful K) (code : ℕ → Bool) (prog : ℕ → ℕ)
    (bounded : (x : ℕ) → prog x < 256) (d : Debugger K) (s : Shows K L code prog d) (idx : ℤ)
    (bp : Breakpoint) (found : get_elem? d.info.bp_vec (to_u64 idx) ≡ some bp) where
  original_word : ℕ
  original_word = patch (K.peek d.world d.info.pid bp.addr) bp.orig_patch

  restore_after : Breakpoint
  restore_after = if d.bp_restore.addr == bp.addr then no_breakpoint else d.bp_restore

  disarmed : K.World → Debugger K
  disarmed w' = record d {
    info = record (d.info) { bp_vec = erase_at (to_u64 idx) d.info.bp_vec };
    bp_restore = restore_after;
    world = w';
    err = breakpoint_deleted idx ∷ d.err;
  }

  disarmed-Shows :
      (w' : K.World)
      → K.poke d.world d.info.pid bp.addr original_word ≡ some w'
      → Shows K L code prog (disarmed w')
  unfolding disarmed original_word restore_after
  disarmed-Shows w' h = record {
    shown = λ x cx. ground (
      arith,
      byte-patch K L d.world w' d.info.pid bp.addr bp.orig_patch d.info.pid x
          (rw keeps.1 (bounded bp.addr)) h,
      has_bp-erase_at d.info.bp_vec (to_u64 idx) bp x s.distinct found,
      keeps,
      s.shown x cx,
    );
    kept = All-erase_at (Keeps code prog) d.info.bp_vec (to_u64 idx) s.kept;
    distinct = Distinct-erase_at d.info.bp_vec (to_u64 idx) bp s.distinct found;
    restorable = ground (
      arith,
      s.restorable,
      has_bp-erase_at d.info.bp_vec (to_u64 idx) bp d.bp_restore.addr s.distinct found,
    );
  }
    where
      keeps : Keeps code prog bp
      keeps = All-get_elem? (Keeps code prog) d.info.bp_vec (to_u64 idx) bp s.kept found

  remove_bp_done :
      (w' : K.World)
      → K.poke d.world d.info.pid bp.addr original_word ≡ some w'
      → remove_bp (to_u64 idx) idx bp d ≡ ok tt (disarmed w')
  unfolding remove_bp disarmed original_word restore_after
  remove_bp_done w' h = ground arith

  remove_bp_failed :
      (Q : Unit {0} → Debugger K → Type 0)
      → K.poke d.world d.info.pid bp.addr original_word ≡ none
      → Returns Q (remove_bp (to_u64 idx) idx bp d)
  unfolding remove_bp original_word
  remove_bp_failed Q h = elim (Bool-cases (d.bp_restore.addr == bp.addr)) [
    | inl e ↦ rw (e, h, remove_bp, Returns) refl
    | inr e ↦ rw (e, h, remove_bp, Returns) refl
  ]

  remove_bp-Shows :
      Returns
        (λ _ d'.
          Shows K L code prog d'
          × ((x : ℕ)
              → has_bp d'.info.bp_vec x ≡ (if bp.addr == x then false else has_bp d.info.bp_vec x)))
        (remove_bp (to_u64 idx) idx bp d)
  unfolding disarmed
  remove_bp-Shows = elim (Option-cases (K.poke d.world d.info.pid bp.addr original_word)) [
    | inl f ↦ remove_bp_failed _ f
    | inr (w', f) ↦
        rw (remove_bp_done w' f) (
          disarmed-Shows w' f,
          λ x. has_bp-erase_at d.info.bp_vec (to_u64 idx) bp x s.distinct found,
        )
  ]

  -- Where the debugger shows a program, whose bytes are below 256, with its break points, del_bp
  -- for the index of an entry ends in errquit, or shows the same program with the address of the
  -- entry taken out of the set of break points.
  pub del_bp-Shows :
      Returns
        (λ _ d'.
          Shows K L code prog d'
          × ((x : ℕ)
              → has_bp d'.info.bp_vec x ≡ (if bp.addr == x then false else has_bp d.info.bp_vec x)))
        (del_bp idx d)
  unfolding del_bp
  del_bp-Shows = rw (found, del_bp) remove_bp-Shows
