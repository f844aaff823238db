-- ===== src/Mini/Jump/Frame.antt =====
-- The memory that setjmp and longjmp of hw3/libmini64.asm work on: a jmp_buf, and two words of the stack.
use nctu_unix_programming.Base.{
  ℕ, ◌+◌, ◌-◌, ◌%◌, ◌^◌, ◌≤◌, ◌<◌, ◌≡◌, refl, ◌⊎◌, inl, inr, arith, ==_refl,
}
use nctu_unix_programming.Mini.Jump.{rbx, rbp, r12, r13, r14, r15, Kernel, Machine, wrap, write}

-- The jmp_buf at `env` and the two words of the stack from `low` on, which setjmp and longjmp write, are
-- aligned, do not overlap, and end before the end of memory.
pub record Fits (env low : ℕ) : Type 0 where
  pub env_aligned : env % 8 ≡ 0
  pub low_aligned : low % 8 ≡ 0
  pub env_end : env + 72 < 2 ^ 64
  pub low_end : low + 16 < 2 ^ 64
  pub apart : (env + 72 ≤ low) ⊎ (low + 16 ≤ env)

pub read_same : (a v : ℕ) (memory : ℕ → ℕ) → write a v memory a ≡ v
unfolding write
read_same a v memory = rw (==_refl a) refl

module _ (env low : ℕ) (fits : Fits env low) where
  pub push_16 : wrap (low + 16 + (2 ^ 64 - 8)) ≡ low + 8
  push_16 = omega (arith, fits.low_end)

  pub push_8 : wrap (low + 8 + (2 ^ 64 - 8)) ≡ low
  push_8 = omega (arith, fits.low_end)

  pub pop_0 : wrap (low + 8) ≡ low + 8
  pop_0 = omega (arith, fits.low_end)

  pub pop_8 : wrap (low + 8 + 8) ≡ low + 16
  pop_8 = omega (arith, fits.low_end)

  pub field : (o : ℕ) → o < 72 → wrap (env + o) ≡ env + o
  field o h = omega (arith, fits.env_end)

  -- Memory after setjmp.
  unfoldable pub saved : {K : Kernel} → Machine K → ℕ → ℕ
  saved m = write (env + 64) 0 (
      write low env (
        write (env + 56) (m.memory (low + 8)) (
          write (env + 48) (m.regs r15) (
            write (env + 40) (m.regs r14) (
              write (env + 32) (m.regs r13) (
                write (env + 24) (m.regs r12) (
                  write (env + 16) (m.regs rbp) (
                    write (low + 8) (m.memory (low + 8))
                      (write (env + 8) (low + 16) (write (env + 0) (m.regs rbx) m.memory))))))))))

  pub saved_low : {K : Kernel} (m : Machine K) → saved m (low + 8) ≡ m.memory (low + 8)
  unfolding saved write
  saved_low m = elim fits.apart [ inl h ↦ ground arith | inr h ↦ ground arith ]

  pub saved_field :
      {K : Kernel} (m : Machine K)
      → (saved m (env + 0) ≡ m.regs rbx)
        × (saved m (env + 8) ≡ low + 16)
        × (saved m (env + 16) ≡ m.regs rbp)
        × (saved m (env + 24) ≡ m.regs r12)
        × (saved m (env + 32) ≡ m.regs r13)
        × (saved m (env + 40) ≡ m.regs r14)
        × (saved m (env + 48) ≡ m.regs r15)
        × (saved m (env + 56) ≡ m.memory (low + 8))
  unfolding saved write
  saved_field m = elim fits.apart [
    | inl h ↦ (
      ground arith,
      ground arith,
      ground arith,
      ground arith,
      ground arith,
      ground arith,
      ground arith,
      ground arith,
    )
    | inr h ↦ (
      ground arith,
      ground arith,
      ground arith,
      ground arith,
      ground arith,
      ground arith,
      ground arith,
      ground arith,
    )
  ]

  -- Memory after the two pushes of longjmp.
  pub pushed_env :
      (v : ℕ) (memory : ℕ → ℕ) → write low v (write (low + 8) env memory) (low + 8) ≡ env
  unfolding write
  pushed_env v memory = ground arith

  pub pushed_field :
      (v : ℕ) (memory : ℕ → ℕ)
      → write low v (write (low + 8) env memory) (env + 56) ≡ memory (env + 56)
  unfolding write
  pushed_field v memory = elim fits.apart [ inl h ↦ ground arith | inr h ↦ ground arith ]
