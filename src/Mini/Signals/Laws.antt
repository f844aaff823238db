-- ===== src/Mini/Signals/Laws.antt =====
-- sigaction and signal of hw3/libmini.c on a kernel that does what its manual says.
use nctu_unix_programming.Base.{
  ℕ, suc, ◌-◌, ◌^◌, ◌≡◌, ◌≢◌, refl, ap, ◌∙◌, bit_and, bit_or, Option, some,
}
use nctu_unix_programming.Monad.{undefined, final, Stops, Gives, ◌>>=◌, ◌>>◌}
use nctu_unix_programming.Numbers.{ℤ, pos, negsuc}
use nctu_unix_programming.Mini.Sigset.{Sigset}
use nctu_unix_programming.Mini.Sys.{Sys, Mini, Action}
use nctu_unix_programming.Mini.Wrappers.{wrapper_ret_val}
use nctu_unix_programming.Mini.Signals.{
  stored, set_size, sig_err, sigprocmask, kernel_action, sigaction, signal,
}

-- All signals but SIGKILL and SIGSTOP, which cannot be blocked.
abbrev pub blockable : ℕ
blockable = 2 ^ 64 - 1 - 2 ^ 8 - 2 ^ 18

-- The signal mask and the actions of a process.
pub record IsSignals (S : Sys) : Type 0 where
  pub mask : S.World → ℕ
  pub action_of : S.World → ℤ → Action
  -- SIG_BLOCK
  pub block :
      (w : S.World) (set : Sigset)
      → let (ret, old, w') = S.rt_sigprocmask (pos 0) (some set) set_size w in
        (ret ≡ pos 0) × (old.sig ≡ mask w) × (mask w' ≡ bit_and (bit_or (mask w) set.sig) blockable)
  pub mask-rt_sigaction :
      (w : S.World) (how : ℤ) (a : Action) → mask ((S.rt_sigaction how a set_size w).1) ≡ mask w
  pub action-rt_sigaction :
      (w : S.World) (how : ℤ) (a : Action) (n : ℕ)
      → (S.rt_sigaction how a set_size w).0 ≡ pos n
      → action_of ((S.rt_sigaction how a set_size w).1) how ≡ a

module _ (S : Sys) (G : IsSignals S) (how : ℤ) (act : Action) (s : Mini S)
    (accepts : (a : Action) (w : S.World) → (S.rt_sigaction how a set_size w).0 ≡ pos 0) where
  -- Where the kernel accepts actions for the signal, sigaction blocks the mask of the new action in the
  -- process, gives the kernel the mask that the process had in its place, and ends by writing past a
  -- variable.
  pub sigaction_blocks :
      Stops undefined (sigaction how (some act) s)
      × (let w' = (final (sigaction how (some act) s)).world in
          (G.mask w' ≡ bit_and (bit_or (G.mask s.world) act.sa_mask.sig) blockable)
          × ((G.action_of w' how).sa_mask.sig ≡ G.mask s.world))
  unfolding sigaction kernel_action sigprocmask wrapper_ret_val
  sigaction_blocks =
      rw (◌>>=◌, ◌>>◌, (G.block s.world act.sa_mask).0, accepts, Stops)
        (
          refl,
          (
            (G.mask-rt_sigaction _ how _ ∙ (G.block s.world act.sa_mask).2),
            ap (λ (a : Action). a.sa_mask.sig) (G.action-rt_sigaction _ how _ 0 (accepts _ _))
                ∙ rw (stored, (G.block s.world act.sa_mask).0) ((G.block s.world act.sa_mask).1),
          ),
        )

module _ (S : Sys) (G : IsSignals S) (how : ℤ) (handler n : ℕ) (s : Mini S)
    (refuses : (a : Action) (w : S.World) → (S.rt_sigaction how a set_size w).0 ≡ negsuc n) where
  -- Where the kernel refuses an action for the signal, signal returns SIG_ERR and leaves the error in
  -- errno; the mask that it blocks meanwhile is that of a variable that was never set.
  pub signal_refused :
      Gives
        (λ h s'.
          (h ≡ sig_err)
          × (s'.errno ≡ pos (suc n))
          × (G.mask s'.world
              ≡ bit_and (bit_or (G.mask s.world) S.unset_action.sa_mask.sig) blockable))
        (signal how handler s)
  unfolding signal sigaction kernel_action sigprocmask wrapper_ret_val
  signal_refused =
      rw (◌>>=◌, ◌>>◌, (G.block s.world S.unset_action.sa_mask).0, refuses, Gives)
        (refl, refl, G.mask-rt_sigaction _ how _ ∙ (G.block s.world S.unset_action.sa_mask).2)

-- The alarm and the actions of a process, which the calls on signals leave alone but for the action that
-- rt_sigaction sets.
pub record IsQuiet (S : Sys) (G : IsSignals S) : Type 0 where
  pub due : S.World → Option ℕ
  pub due-rt_sigprocmask :
      (w : S.World) (how : ℤ) (set : Sigset)
      → due ((S.rt_sigprocmask how (some set) set_size w).2) ≡ due w
  pub due-rt_sigaction :
      (w : S.World) (how : ℤ) (a : Action) → due ((S.rt_sigaction how a set_size w).1) ≡ due w
  pub action_of-rt_sigprocmask :
      (w : S.World) (how : ℤ) (set : Sigset) (k : ℤ)
      → G.action_of ((S.rt_sigprocmask how (some set) set_size w).2) k ≡ G.action_of w k
  pub action_of-rt_sigaction :
      (w : S.World) (how : ℤ) (a : Action) (k : ℤ)
      → k ≢ how
      → G.action_of ((S.rt_sigaction how a set_size w).1) k ≡ G.action_of w k

module _ (S : Sys) (G : IsSignals S) (A : IsQuiet S G) where
  -- The worlds have the same alarm, and the same actions but for one signal.
  abbrev pub Still : ℤ → S.World → S.World → Type 0
  Still how w w' = (A.due w' ≡ A.due w) × ((k : ℤ) → k ≢ how → G.action_of w' k ≡ G.action_of w k)

  -- Where the kernel accepts actions for the signal, signal writes past a variable of sigaction, with the
  -- handler in the kernel, and the alarm and all other actions as before.
  pub signal_accepted :
      (how : ℤ) (handler : ℕ) (s : Mini S)
      (accepts : (a : Action) (w : S.World) → (S.rt_sigaction how a set_size w).0 ≡ pos 0)
      → Stops undefined (signal how handler s)
        × (let w' = (final (signal how handler s)).world in
            ((G.action_of w' how).sa_handler ≡ handler) × Still how s.world w')
  unfolding signal sigaction kernel_action sigprocmask wrapper_ret_val
  signal_accepted how handler s accepts =
      rw (◌>>=◌, ◌>>◌, (G.block s.world S.unset_action.sa_mask).0, accepts, Stops)
        (
          refl,
          (
            ap (λ (a : Action). a.sa_handler) (G.action-rt_sigaction _ how _ 0 (accepts _ _)),
            (
              A.due-rt_sigaction _ how _
                  ∙ A.due-rt_sigprocmask s.world (pos 0) S.unset_action.sa_mask,
              λ k d.
                  A.action_of-rt_sigaction _ how _ k d
                  ∙ A.action_of-rt_sigprocmask s.world (pos 0) S.unset_action.sa_mask k,
            ),
          ),
        )
