-- ===== src/Mini/Jump/Stubs.antt =====
-- The system call stubs of hw3/libmini64.asm.
use nctu_unix_programming.Base.{ℕ, ◌+◌, ◌-◌, ◌^◌, ◌<◌, ◌≡◌, refl, arith}
use nctu_unix_programming.Mini.Jump.{
  rax, rcx, rsp, r10, Kernel, Machine, wrap, set_reg, write, run, gensys,
}
use nctu_unix_programming.Mini.Jump.Laws.{Keeps}

-- The kernel's answer to a stub: the number is in rax, the fourth argument, which C has in rcx, is in
-- r10, and r10 is saved on the stack.
abbrev pub answer : (K : Kernel) → ℕ → ℕ → Machine K → ℕ × ℕ × (ℕ → ℕ) × K.World
answer K n low m =
    K.enter (set_reg rax n (set_reg r10 (m.regs rcx) (set_reg rsp low m.regs)))
      (write low (m.regs r10) m.memory) m.world

-- Where the kernel leaves the two words on the stack alone, the stub of a system call returns to its
-- caller with the kernel's result, with r10 and the registers that are the caller's as they were, and
-- with the memory and the world that the kernel has left.
pub gensys_returns :
    {K : Kernel} (n low : ℕ) (m : Machine K)
    → m.regs rsp ≡ low + 8
    → low + 16 < 2 ^ 64
    → (answer K n low m).2 low ≡ m.regs r10
    → (answer K n low m).2 (low + 8) ≡ m.memory (low + 8)
    → let r = run (gensys n) m in
      let (value, c, memory, w) = answer K n low m in
      (r.rip ≡ m.memory (low + 8))
      × (r.regs rax ≡ value)
      × (r.regs r10 ≡ m.regs r10)
      × (r.regs rsp ≡ low + 16)
      × Keeps r m
      × (r.memory ≡ memory)
      × (r.world ≡ w)
unfolding gensys
gensys_returns n low m rsp_low end saved kept =
    rw (rsp_low, push, saved, pop, kept, pop_again)
      (refl, refl, refl, refl, (refl, (refl, (refl, (refl, (refl, (refl, tt)))))), refl, refl)
  where
    push : wrap (low + 8 + (2 ^ 64 - 8)) ≡ low
    push = omega (arith, end)

    pop : wrap (low + 8) ≡ low + 8
    pop = omega (arith, end)

    pop_again : wrap (low + 8 + 8) ≡ low + 16
    pop_again = omega (arith, end)
