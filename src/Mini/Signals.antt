-- ===== src/Mini/Signals.antt =====
-- sigprocmask, sigpending, sigaction and signal of hw3/libmini.c.
pub mod Laws
use nctu_unix_programming.Base.{ℕ, ◌-◌, ◌^◌, bit_or, Option, none, some}
use nctu_unix_programming.Monad.{pure, halt, undefined, ◌>>=◌, ◌>>◌}
use nctu_unix_programming.Numbers.{ℤ, pos, negsuc, to_int}
use nctu_unix_programming.Mini.Sigset.{Sigset}
use nctu_unix_programming.Mini.Sys.{Sys, Mini, MiniM, Action}
use nctu_unix_programming.Mini.Wrappers.{wrapper_ret_val}

-- sizeof(sigset_t)
abbrev pub set_size : ℕ
set_size = 8

abbrev pub sa_restorer_flag : ℕ
sa_restorer_flag = 0x04000000

-- (sighandler_t) -1
abbrev pub sig_err : ℕ
sig_err = 2 ^ 64 - 1

-- What is stored through a pointer by a call that succeeds.
abbrev pub stored : ℤ → Sigset → Option Sigset
stored (pos n) set = some set
stored (negsuc n) set = none

abbrev pub stored_or : Option Sigset → Sigset → Sigset
stored_or none unset = unset
stored_or (some set) unset = set

module _ {S : Sys} where
  -- The value returned, and what is stored in oldset.
  unfoldable pub sigprocmask : ℤ → Option Sigset → MiniM S (ℤ × Option Sigset)
  unfolding wrapper_ret_val
  sigprocmask how set s =
      (let (ret, old, w) = S.rt_sigprocmask how set set_size s.world in
          do value ← wrapper_ret_val to_int ret; pure (value, stored ret old))
        (record s { world = (S.rt_sigprocmask how set set_size s.world).2 })

  unfoldable pub sigpending : MiniM S (ℤ × Option Sigset)
  unfolding wrapper_ret_val
  sigpending s =
      (let (ret, set, w) = S.rt_sigpending set_size s.world in
          do value ← wrapper_ret_val to_int ret; pure (value, stored ret set))
        (record s { world = (S.rt_sigpending set_size s.world).2 })

  -- The action for the kernel: the mask of nact is blocked in the process, and the mask that the
  -- process had is put into the action.
  unfoldable pub kernel_action : Option Action → MiniM S Action
  unfolding sigprocmask
  kernel_action none = pure S.unset_action
  kernel_action (some nact) = do
    (value, old) ← sigprocmask (pos 0) (some nact.sa_mask)
    pure (record {
      sa_handler = nact.sa_handler;
      sa_flags = bit_or nact.sa_flags sa_restorer_flag;
      sa_restorer = S.sigreturn;
      sa_mask = stored_or old S.unset_action.sa_mask;
    })

  -- The kernel is given the address of the parameter oact, a pointer, as a place for the old action:
  -- if it succeeds, it writes 32 bytes over the 8 of that variable.
  unfoldable pub sigaction : ℤ → Option Action → MiniM S ℤ
  unfolding kernel_action
  sigaction how nact = do
    kact ← kernel_action nact
    ret ← λ s.
        (let (r, w) = S.rt_sigaction how kact set_size s.world in pure r (record s { world = w }))
    elim ret [ pos n ↦ halt undefined | negsuc n ↦ wrapper_ret_val to_int (negsuc n) ]

  -- sa_restorer and sa_mask of `act`, and all of `oact`, are not set.
  unfoldable pub signal : ℤ → ℕ → MiniM S ℕ
  unfolding sigaction
  signal signum handler = do
    value ← sigaction signum (some (record S.unset_action { sa_handler = handler; sa_flags = 0 }))
    elim value [ pos n ↦ pure S.unset_action.sa_handler | negsuc n ↦ pure sig_err ]
