-- ===== src/Sdb/Regs/Laws.antt =====
-- set and get of a register, of hw4/sdb.cpp.
use nctu_unix_programming.Base.{
  ℕ, zero, suc, ◌<◌, ◌≡◌, refl, some, List, [], ◌∷◌, ◌==◌, if◌then◌else◌, get_or, set, length,
  arith,
}
use nctu_unix_programming.Base.Text.{Bytes}
use nctu_unix_programming.Monad.{ok, ◌>>◌, ◌>>=◌}
use nctu_unix_programming.Sdb.Kernel.{Kernel, IsLawful}
use nctu_unix_programming.Sdb.State.{Debugger, running, reg_value, is_running_of}
use nctu_unix_programming.Sdb.Regs.{offset_of, print_reg, set_reg}

get_or-set :
    (xs : List ℕ) (i v j : ℕ)
    → i < length xs
    → get_or (set xs i v) j 0 ≡ (if i == j then v else get_or xs j 0)
get_or-set [] i v j h = absurd (omega arith)
get_or-set (x ∷ xs) zero v zero h = ground arith
get_or-set (x ∷ xs) zero v (suc j) h = ground arith
get_or-set (x ∷ xs) (suc i) v zero h = ground arith
get_or-set (x ∷ xs) (suc i) v (suc j) h = ground (arith, get_or-set xs i v j (omega arith))

-- set followed by get, on a running program whose registers can be read and set, for two names of
-- the table whose first has its place in the registers: the register that was set is printed with
-- its new value, and every other one with the value that it had.
pub set_reg-print_reg :
    (K : Kernel) (L : IsLawful K) (d : Debugger K) (w : K.World) (regs : List ℕ) (reg other : Bytes)
    (i j val : ℕ)
    → d.info.state ≡ running
    → K.get_regs d.world d.info.pid ≡ some regs
    → offset_of reg ≡ some i
    → offset_of other ≡ some j
    → i < length regs
    → K.set_regs d.world d.info.pid (set regs i val) ≡ some w
    → (set_reg reg val >> print_reg other) d
      ≡ ok tt (record d {
        world = w;
        err = reg_value other (if i == j then val else get_or regs j 0) ∷ d.err;
      })
unfolding set_reg print_reg
set_reg-print_reg K L d w regs reg other i j val r g o p h s =
    rw
      (
        ◌>>◌,
        ◌>>=◌,
        is_running_of d.info.state r,
        g,
        o,
        s,
        is_running_of d.info.state r,
        L.get_regs-set_regs d.world w d.info.pid (set regs i val) s,
        p,
        get_or-set regs i val j h,
      )
      refl
