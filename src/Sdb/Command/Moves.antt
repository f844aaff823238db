-- ===== src/Sdb/Command/Moves.antt =====
-- The moves between the states of the program, for set_bp, del_bp and cont of hw4/sdb.cpp.
use nctu_unix_programming.Base.{
  ℕ, ◌≡◌, refl, sym, ap, ◌∙◌, true, false, Option, ◌==◌, arith, none, some, List, [], inl, inr,
  erase_at, get_elem?, Bool-cases, Option-cases,
}
use mathlib.Core.Path.{subst}
use nctu_unix_programming.Base.Text.{Bytes}
use nctu_unix_programming.Monad.{Outcome, After, After-weaken, ◌>>=◌}
use nctu_unix_programming.Numbers.{to_u64, ℤ}
use nctu_unix_programming.Sdb.Word.{patch, int3}
use nctu_unix_programming.Sdb.Kernel.{Kernel}
use nctu_unix_programming.Sdb.State.{
  RunState, noload, loaded, running, ProgInfo, no_program, Breakpoint, Debugger, Sdb, is_running,
  is_loaded, is_noload,
}
use nctu_unix_programming.Sdb.Breaks.{has_bp, set_bp, set_bp_running, del_bp, remove_bp}
use nctu_unix_programming.Sdb.Cont.{cont}
use nctu_unix_programming.Sdb.Cont.Ended.{EndedAt, HasEnded}
use nctu_unix_programming.Sdb.Command.{
  Command, cont_cmd, load_cmd, run_cmd, start_cmd, argument, or_throw,
}
use nctu_unix_programming.Sdb.Command.Info.{Same, cont-Ends}
use nctu_unix_programming.Sdb.Command.Views.{}

-- The moves between the states of the program that a command makes; a move to not loaded is made only
-- where the program has ended.
pub data Moves (ended : Type 0) : Command → RunState → RunState → Type 0 where
  stays : (c : Command) (s : RunState) → Moves ended c s s
  loads : Moves ended load_cmd noload loaded
  starts : Moves ended start_cmd loaded running
  run_starts : Moves ended run_cmd loaded running
  run_ends : ended → Moves ended run_cmd loaded noload
  run_continues : ended → Moves ended run_cmd running noload
  cont_ends : ended → Moves ended cont_cmd running noload

-- A program that does not run has no break points.
abbrev pub Idle : ProgInfo → Type 0
Idle i = is_running i.state ≡ false → i.bp_vec ≡ []

pub erase_at-Idle :
    (i : ProgInfo) (n : ℕ) → Idle i → Idle (record i { bp_vec = erase_at n i.bp_vec })
erase_at-Idle i n h k = ap (erase_at n) (h k)

pub is_running-running : (s : RunState) → is_running s ≡ true → s ≡ running
is_running-running s h = ground arith

pub is_loaded-loaded : (s : RunState) → is_loaded s ≡ true → s ≡ loaded
is_loaded-loaded s h = ground arith

pub is_noload-noload : (s : RunState) → is_noload s ≡ true → s ≡ noload
is_noload-noload s h = ground arith

pub running-Idle : (i : ProgInfo) → i.state ≡ running → Idle i
running-Idle i r k = let x : true ≡ false = sym (ap is_running r) ∙ k in cc

pub info_state : {i j : ProgInfo} → i ≡ j → i.state ≡ j.state
info_state p = ap (λ (i : ProgInfo). i.state) p

pub is_loaded_of : (st : RunState) → st ≡ loaded → is_loaded st ≡ true
is_loaded_of st h = ground arith

pub ended_info : {K : Kernel} {p : ℕ} (d : Debugger K) → EndedAt p d → d.info ≡ no_program
ended_info d (w, before, e, x, m, i) = i

module _ {K : Kernel} where
  -- A run that returns has made a move of the command, and left a program that does not run without
  -- break points.
  abbrev pub Moved : Command → RunState → {A : Type 0} → Outcome (Debugger K) A → Type 0
  Moved c s r = After (λ _ d. Idle d.info × Moves (HasEnded d) c s d.info.state) r

  pub Same-Moved :
      (c : Command) (d : Debugger K) {A : Type 0} (r : Outcome (Debugger K) A)
      → Idle d.info
      → Same d.info r
      → Moved c d.info.state r
  Same-Moved c d r h s =
      After-weaken (λ _ d'. d'.info ≡ d.info) _ r s
        λ _ d' e. (
          subst Idle (sym e) h,
          subst (λ i. Moves (HasEnded d') c d.info.state i.state) (sym e) (stays c d.info.state),
        )

  pub argument-Moved :
      (c : Command) (s : RunState) (input : List Bytes) (n : ℕ) (f : Bytes → Sdb K (Unit {0}))
      (d : Debugger K)
      → ((x : Bytes) → Moved c s (f x d))
      → Moved c s ((argument input n >>= f) d)
  argument-Moved c s input n f d h = elim (Option-cases (get_elem? input n)) [
    | inl e ↦ rw (◌>>=◌, argument, e, After) tt
    | inr (x, e) ↦ rw (◌>>=◌, argument, e, After) (h x)
  ]

  pub or_throw-Moved :
      {A : Type 0} (c : Command) (s : RunState) (o : Option A) (f : A → Sdb K (Unit {0}))
      (d : Debugger K)
      → ((x : A) → Moved c s (f x d))
      → Moved c s ((or_throw o >>= f) d)
  or_throw-Moved c s none f d h = tt
  or_throw-Moved c s (some x) f d h = h x

  pub set_bp-Moved :
      (c : Command) (addr : ℕ) (d : Debugger K) → Idle d.info → Moved c d.info.state (set_bp addr d)
  unfolding set_bp set_bp_running
  set_bp-Moved c addr d h = elim (Bool-cases (is_running d.info.state)) [
    | inr e ↦ rw (e, After) (h, stays c d.info.state)
    | inl e ↦
        rw (e, After)
          (elim (Bool-cases (has_bp d.info.bp_vec addr)) [
            | inl f ↦ rw (f, After) (h, stays c d.info.state)
            | inr f ↦
                rw (f, After)
                  (elim (Option-cases (
                    K.poke d.world d.info.pid addr (patch (K.peek d.world d.info.pid addr) int3))) [
                      | inl g ↦ rw (g, After) tt
                      | inr (w, g) ↦
                          rw (g, After)
                            ((λ k. let x : true ≡ false = sym e ∙ k in cc), stays c d.info.state)
                    ])
          ])
  ]

  -- del_bp once its index names an entry.
  pub remove_bp-Moved :
      (c : Command) (n : ℕ) (idx : ℤ) (bp : Breakpoint) (d : Debugger K)
      → Idle d.info
      → Moved c d.info.state (remove_bp n idx bp d)
  unfolding remove_bp
  remove_bp-Moved c n idx bp d h =
      elim (Option-cases (
        K.poke d.world d.info.pid bp.addr
          (patch (K.peek d.world d.info.pid bp.addr) bp.orig_patch))) [
            | inl e ↦ elim (Bool-cases (d.bp_restore.addr == bp.addr)) [
              | inl f ↦ rw (f, e, After) tt
              | inr f ↦ rw (f, e, After) tt
            ]
            | inr (w, e) ↦ elim (Bool-cases (d.bp_restore.addr == bp.addr)) [
              | inl f ↦ rw (f, e, After) (erase_at-Idle d.info n h, stays c d.info.state)
              | inr f ↦ rw (f, e, After) (erase_at-Idle d.info n h, stays c d.info.state)
            ]
          ]

  pub del_bp-Moved :
      (c : Command) (idx : ℤ) (d : Debugger K) → Idle d.info → Moved c d.info.state (del_bp idx d)
  unfolding del_bp
  del_bp-Moved c idx d h = elim (Option-cases (get_elem? d.info.bp_vec (to_u64 idx))) [
    | inl e ↦ rw (e, After) (h, stays c d.info.state)
    | inr (bp, e) ↦ rw (e, After) (remove_bp-Moved c (to_u64 idx) idx bp d h)
  ]

  pub cont-Moved :
      (c : Command) (d : Debugger K)
      → ((d' : Debugger K) → HasEnded d' → Moves (HasEnded d') c running noload)
      → Idle d.info
      → Moved c d.info.state (cont d)
  unfolding cont
  cont-Moved c d m h = elim (Bool-cases (is_running d.info.state)) [
    | inr e ↦ rw (e, After) (h, stays c d.info.state)
    | inl e ↦ After-weaken _ _ (cont d) (cont-Ends d) λ _ d' x. elim x [
      | inl f ↦ (
        subst Idle (sym f) h,
        subst (λ i. Moves (HasEnded d') c d.info.state i.state) (sym f) (stays c d.info.state),
      )
      | inr f ↦ (
        subst Idle (sym (ended_info d' f)) (λ k. refl),
        subst (λ i. Moves (HasEnded d') c d.info.state i.state) (sym (ended_info d' f))
            (subst (λ s. Moves (HasEnded d') c s noload) (sym (is_running-running d.info.state e))
              (m d' (d.info.pid, f))),
      )
    ]
  ]
