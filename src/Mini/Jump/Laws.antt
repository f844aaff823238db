-- ===== src/Mini/Jump/Laws.antt =====
-- setjmp and longjmp of hw3/libmini64.asm against what is to be restored.
use nctu_unix_programming.Base.{
  ℕ, ◌+◌, ◌*◌, ◌-◌, ◌^◌, ◌<◌, ◌≡◌, ◌≢◌, refl, sym, ap, ◌∙◌, List, [], ◌∷◌, All, arith,
}
use nctu_unix_programming.Mini.Jump.{
  Reg, rax, rbx, rdx, rsi, rdi, rbp, rsp, r10, r12, r13, r14, r15, Kernel, Machine, wrap, set_reg,
  run, setjmp, longjmp,
}
use nctu_unix_programming.Mini.Jump.Frame.{
  Fits, read_same, push_16, push_8, pop_0, pop_8, field, saved, saved_low, saved_field, pushed_env,
  pushed_field,
}

-- rt_sigprocmask refuses a signal set of a size that is not 8, and then changes nothing.
abbrev pub Refuses : Kernel → Type 0
Refuses K =
    (regs : Reg → ℕ) (memory : ℕ → ℕ) (w : K.World)
    → regs rax ≡ 14
    → regs r10 ≢ 8
    → let (a, c, memory', w') = K.enter regs memory w in
      (a ≡ 2 ^ 64 - 22) × (memory' ≡ memory) × (w' ≡ w)

wrap_small : (n : ℕ) → n < 2 ^ 64 → wrap n ≡ n
wrap_small n h = omega arith

setjmp_call :
    (K : Kernel) (refuses : Refuses K) (f : Reg → ℕ) (how set old : ℕ) (memory : ℕ → ℕ)
    (w : K.World)
    → let (a, c, memory', w') =
        K.enter
          (set_reg r10 32 (set_reg rdx old (set_reg rsi set (set_reg rdi how (set_reg rax 14 f)))))
          memory
          w in
      (memory' ≡ memory) × (w' ≡ w)
setjmp_call K refuses f how set old memory w =
    let h =
      refuses
        (set_reg r10 32 (set_reg rdx old (set_reg rsi set (set_reg rdi how (set_reg rax 14 f)))))
        memory w refl (λ e. omega (arith, e)) in
    (h.1, h.2)

longjmp_call :
    (K : Kernel) (refuses : Refuses K) (f : Reg → ℕ) (how set old : ℕ) (memory : ℕ → ℕ)
    (w : K.World)
    → let (a, c, memory', w') =
        K.enter
          (set_reg r10 32 (set_reg rdx old (set_reg rdi how (set_reg rsi set (set_reg rax 14 f)))))
          memory
          w in
      (memory' ≡ memory) × (w' ≡ w)
longjmp_call K refuses f how set old memory w =
    let h =
      refuses
        (set_reg r10 32 (set_reg rdx old (set_reg rdi how (set_reg rsi set (set_reg rax 14 f)))))
        memory w refl (λ e. omega (arith, e)) in
    (h.1, h.2)

-- The registers that a function keeps for its caller.
abbrev pub callee_saved : List Reg
callee_saved = rbx ∷ rbp ∷ r12 ∷ r13 ∷ r14 ∷ r15 ∷ []

-- A jmp_buf that holds the state of a machine.
abbrev pub Holds : {K : Kernel} → ℕ → (ℕ → ℕ) → Machine K → Type 0
Holds env memory r =
    (memory (env + 0) ≡ r.regs rbx)
    × (memory (env + 8) ≡ r.regs rsp)
    × (memory (env + 16) ≡ r.regs rbp)
    × (memory (env + 24) ≡ r.regs r12)
    × (memory (env + 32) ≡ r.regs r13)
    × (memory (env + 40) ≡ r.regs r14)
    × (memory (env + 48) ≡ r.regs r15)
    × (memory (env + 56) ≡ r.rip)

-- What a machine keeps of another for the caller of a function.
abbrev pub Keeps : {K : Kernel} → Machine K → Machine K → Type 0
Keeps r m = All (λ (q : Reg). r.regs q ≡ m.regs q) callee_saved

-- The jmp_buf at `env` is the same in two memories.
abbrev pub SameBuffer : ℕ → (ℕ → ℕ) → (ℕ → ℕ) → Type 0
SameBuffer env memory memory' = (i : ℕ) → i < 9 → memory' (env + 8 * i) ≡ memory (env + 8 * i)

module _ (env low : ℕ) (fits : Fits env low) where
  module _ {K : Kernel} (refuses : Refuses K) (m : Machine K) (rsp_low : m.regs rsp ≡ low + 8)
      (rdi_env : m.regs rdi ≡ env) where
    pop_rsp : wrap (m.regs rsp + 8) ≡ low + 16
    pop_rsp = omega (arith, rsp_low, fits.low_end)

    run-setjmp :
        let r = run setjmp m in
        (r.rip ≡ m.memory (low + 8))
        × (r.regs rax ≡ 0)
        × (r.regs rsp ≡ low + 16)
        × Keeps r m
        × (r.memory ≡ saved env low fits m)
        × (r.world ≡ m.world)
    unfolding setjmp saved
    run-setjmp =
        rw
          (
            pop_rsp,
            rdi_env,
            rsp_low,
            push_16 env low fits,
            push_8 env low fits,
            pop_0 env low fits,
            pop_8 env low fits,
            field env low fits 0 (omega arith),
            field env low fits 8 (omega arith),
            field env low fits 16 (omega arith),
            field env low fits 24 (omega arith),
            field env low fits 32 (omega arith),
            field env low fits 40 (omega arith),
            field env low fits 48 (omega arith),
            field env low fits 56 (omega arith),
            (setjmp_call K refuses _ 0 0 0 _ _).0,
            (setjmp_call K refuses _ 0 0 0 _ _).1,
            read_same low env _,
            field env low fits 64 (omega arith),
          )
          (
            saved_low env low fits m,
            refl,
            refl,
            (refl, (refl, (refl, (refl, (refl, (refl, tt)))))),
            refl,
            refl,
          )

    held-Holds :
        (memory : ℕ → ℕ)
        → SameBuffer env (run setjmp m).memory memory
        → Holds env memory (run setjmp m)
    held-Holds memory same =
        let f = saved_field env low fits m in
        let s = run-setjmp in
        let k = s.3 in
        (
          at 0 (omega arith) ∙ f.0 ∙ sym k.0,
          at 1 (omega arith) ∙ f.1 ∙ sym s.2,
          at 2 (omega arith) ∙ f.2 ∙ sym k.1.0,
          at 3 (omega arith) ∙ f.3 ∙ sym k.1.1.0,
          at 4 (omega arith) ∙ f.4 ∙ sym k.1.1.1.0,
          at 5 (omega arith) ∙ f.5 ∙ sym k.1.1.1.1.0,
          at 6 (omega arith) ∙ f.6 ∙ sym k.1.1.1.1.1.0,
          at 7 (omega arith) ∙ f.7 ∙ sym s.0,
        )
      where
        at : (i : ℕ) → i < 9 → memory (env + 8 * i) ≡ saved env low fits m (env + 8 * i)
        at i h = same i h ∙ ap (λ (g : ℕ → ℕ). g (env + 8 * i)) (run-setjmp).4

  module _ {K : Kernel} (refuses : Refuses K) (m r : Machine K) (rsp_low : r.regs rsp ≡ low + 16)
      (holds : Holds env m.memory r) (rdi_env : m.regs rdi ≡ env) where
    run-longjmp :
        let l = run longjmp m in
        (l.rip ≡ r.rip)
        × (l.regs rax ≡ m.regs rsi)
        × (l.regs rsp ≡ r.regs rsp)
        × Keeps l r
        × (l.world ≡ m.world)
    unfolding longjmp
    run-longjmp =
        rw
          (
            rdi_env,
            field env low fits 0 (omega arith),
            field env low fits 8 (omega arith),
            field env low fits 16 (omega arith),
            field env low fits 24 (omega arith),
            field env low fits 32 (omega arith),
            field env low fits 40 (omega arith),
            field env low fits 48 (omega arith),
            holds.0,
            holds.1,
            holds.2,
            holds.3,
            holds.4,
            holds.5,
            holds.6,
            rsp_low,
            push_16 env low fits,
            push_8 env low fits,
            field env low fits 64 (omega arith),
            pop_0 env low fits,
            pop_8 env low fits,
            (longjmp_call K refuses _ 1 _ 0 _ _).0,
            (longjmp_call K refuses _ 1 _ 0 _ _).1,
            read_same low (m.regs rsi) _,
            pushed_env env low fits (m.regs rsi) m.memory,
            field env low fits 56 (omega arith),
            pushed_field env low fits (m.regs rsi) m.memory,
          )
          (holds.7, refl, refl, (refl, (refl, (refl, (refl, (refl, (refl, tt)))))), refl)

-- On a kernel that refuses a signal set of 32 bytes: setjmp returns 0 to its caller, with the registers
-- of the caller and without a change of the signal mask or of anything else outside the machine. If
-- its jmp_buf is the same later, longjmp goes to where setjmp returned, with the registers and the
-- stack pointer that were there and its second argument as the result, and without a change of
-- anything outside the machine.
pub longjmp-setjmp :
    {K : Kernel} (refuses : Refuses K) (env low : ℕ) (fits : Fits env low) (m m' : Machine K)
    → m.regs rsp ≡ low + 8
    → m.regs rdi ≡ env
    → m'.regs rdi ≡ env
    → SameBuffer env (run setjmp m).memory m'.memory
    → let r = run setjmp m in
      let l = run longjmp m' in
      ((r.rip ≡ m.memory (low + 8))
        × (r.regs rax ≡ 0)
        × (r.regs rsp ≡ low + 16)
        × Keeps r m
        × (r.world ≡ m.world))
      × ((l.rip ≡ r.rip)
          × (l.regs rax ≡ m'.regs rsi)
          × (l.regs rsp ≡ r.regs rsp)
          × Keeps l r
          × (l.world ≡ m'.world))
longjmp-setjmp {K} refuses env low fits m m' rsp_low rdi_env rdi_env' same =
    let s = run-setjmp env low fits refuses m rsp_low rdi_env in
    (
      (s.0, s.1, s.2, s.3, s.5),
      run-longjmp env low fits refuses m' (run setjmp m) s.2
          (held-Holds env low fits refuses m rsp_low rdi_env m'.memory same) rdi_env',
    )
