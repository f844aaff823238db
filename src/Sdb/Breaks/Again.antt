-- ===== src/Sdb/Breaks/Again.antt =====
-- set_bp of hw4/sdb.cpp for an address that is set already.
use nctu_unix_programming.Base.{
  ℕ, ◌≡◌, refl, ap, ◌∙◌, Bool, true, ◌||◌, Bool-cases, Option-cases, inl, inr, ==_refl,
}
use mathlib.Core.Path.{subst}
use nctu_unix_programming.Monad.{ok, After}
use nctu_unix_programming.Sdb.Kernel.{Kernel}
use nctu_unix_programming.Sdb.Word.{byte_of, patch, int3}
use nctu_unix_programming.Sdb.State.{Debugger, running, is_running_of}
use nctu_unix_programming.Sdb.Breaks.{has_bp, set_bp, set_bp_running}
use nctu_unix_programming.Sdb.Breaks.Table.{has_bp-append}

module _ {K : Kernel} where
  set_bp_listed :
      (addr : ℕ) (d : Debugger K)
      → d.info.state ≡ running
      → has_bp d.info.bp_vec addr ≡ true
      → set_bp addr d ≡ ok tt d
  unfolding set_bp set_bp_running
  set_bp_listed addr d r h = rw (is_running_of d.info.state r, h) refl

  set_bp-has_bp :
      (addr : ℕ) (d : Debugger K)
      → d.info.state ≡ running
      → After
          (λ _ d'. (d'.info.state ≡ running) × (has_bp d'.info.bp_vec addr ≡ true))
          (set_bp addr d)
  unfolding set_bp set_bp_running
  set_bp-has_bp addr d r =
      rw (is_running_of d.info.state r, After)
        (elim (Bool-cases (has_bp d.info.bp_vec addr)) [
          | inl e ↦ rw (e, After) (r, e)
          | inr e ↦
              rw (e, After)
                (elim (Option-cases
                  (K.poke d.world d.info.pid addr (patch (K.peek d.world d.info.pid addr) int3))) [
                    | inl f ↦ rw (f, After) tt
                    | inr (w, f) ↦
                        rw (f, After)
                          (
                            r,
                            has_bp-append d.info.bp_vec
                                  (record {
                                    addr = addr;
                                    orig_patch = byte_of 0 (K.peek d.world d.info.pid addr);
                                  })
                                  addr
                                ∙ ap (λ (b : Bool). b || has_bp d.info.bp_vec addr) (==_refl addr),
                          )
                  ])
        ])

  -- On a running program, once set_bp has returned, a second set_bp of the same address changes
  -- nothing and writes nothing.
  pub set_bp-set_bp :
      (addr : ℕ) (d d' : Debugger K)
      → d.info.state ≡ running
      → set_bp addr d ≡ ok tt d'
      → set_bp addr d' ≡ ok tt d'
  set_bp-set_bp addr d d' r h =
      let after : After (λ _ d''. (d''.info.state ≡ running) × (has_bp d''.info.bp_vec addr ≡ true))
          (ok tt d') =
        subst (After (λ _ d''. (d''.info.state ≡ running) × (has_bp d''.info.bp_vec addr ≡ true))) h
          (set_bp-has_bp addr d r) in
      set_bp_listed addr d' after.0 after.1
