-- ===== src/Tests/Jumps.antt =====
-- Examples of the theorems on the assembly of hw3.
use nctu_unix_programming.Base.{ℕ, ◌+◌, ◌-◌, ◌^◌, ◌≡◌, refl, inr, ◌==◌, if◌then◌else◌, arith, ==_ne}
use nctu_unix_programming.Mini.Jump.{
  rax, rsi, rdi, rsp, r10, Kernel, Machine, set_reg, write, run, setjmp, longjmp, gensys,
}
use nctu_unix_programming.Mini.Jump.Frame.{Fits}
use nctu_unix_programming.Mini.Jump.Laws.{Refuses, Keeps, longjmp-setjmp}
use nctu_unix_programming.Mini.Jump.Stubs.{answer, gensys_returns}

-- A kernel whose state is the signal mask: it refuses a set that is not of 8 bytes, and answers other
-- calls with the sum of the first and the fourth argument.
abbrev calls : Kernel
calls = record {
  World = ℕ;
  enter = λ regs memory w.
      if regs rax == 14
      then (if regs r10 == 8 then (0, 1, memory, regs rsi) else (2 ^ 64 - 22, 1, memory, w))
      else (regs rdi + regs r10, 1, memory, w);
}

calls_refuses : Refuses calls
calls_refuses regs memory w h n = rw (h, ==_ne (regs r10) 8 n) (refl, refl, refl)

-- The stack pointer is 1008, the first argument is 2000, and a word of memory is its address.
abbrev entry : Machine calls
entry = record {
  regs = set_reg rsp 1008 (set_reg rdi 2000 (λ q. 7));
  memory = λ a. a;
  rip = 0;
  world = 512;
}

-- Later, before longjmp(env, 5), with other registers and another mask.
abbrev later : Machine calls
later = record {
  regs = set_reg rdi 2000 (set_reg rsi 5 (λ q. 9));
  memory = (run setjmp entry).memory;
  rip = 0;
  world = 1024;
}

fits : Fits 2000 1000
fits = record {
  env_aligned = refl;
  low_aligned = refl;
  env_end = omega arith;
  low_end = omega arith;
  apart = inr (omega arith);
}

longjmp-setjmp_example :
    let r = run setjmp entry in
    let l = run longjmp later in
    ((r.rip ≡ 1008) × (r.regs rax ≡ 0) × (r.regs rsp ≡ 1016) × Keeps r entry × (r.world ≡ 512))
    × ((l.rip ≡ r.rip)
        × (l.regs rax ≡ 5)
        × (l.regs rsp ≡ r.regs rsp)
        × Keeps l r
        × (l.world ≡ 1024))
longjmp-setjmp_example =
    longjmp-setjmp calls_refuses 2000 1000 fits entry later refl refl refl (λ i h. refl)

gensys_returns_example :
    let r = run (gensys 39) entry in
    (r.rip ≡ 1008)
    × (r.regs rax ≡ 2007)
    × (r.regs r10 ≡ 7)
    × (r.regs rsp ≡ 1016)
    × Keeps r entry
    × (r.memory ≡ (answer calls 39 1000 entry).2)
    × (r.world ≡ 512)
unfolding write
gensys_returns_example = gensys_returns 39 1000 entry refl (omega arith) refl refl
