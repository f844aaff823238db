-- ===== src/Mini/Samples/Laws.antt =====
-- The sample programs of hw3 on a kernel that does what its manual says.
use nctu_unix_programming.Base.{
  ℕ, ◌^◌, ◌≤◌, ◌<◌, ◌≡◌, ◌≢◌, refl, ap, ◌∙◌, bit_and, bit_or, true, Option, some, ◌++◌, length,
  arith,
}
use nctu_unix_programming.Base.Text.{Bytes}
use nctu_unix_programming.Base.Bits.{digit, digit-bit_and, digit-bit_or}
use nctu_unix_programming.Monad.{
  pure, ok, stop, undefined, exited, Outcome, final, Gives, Gives-bind, Gives-weaken, Stops,
  Stops-final-bind, Stops-final-then,
}
use nctu_unix_programming.Numbers.{ℤ, pos, negsuc}
use nctu_unix_programming.Mini.Sigset.{Sigset, sigemptyset, sigaddset}
use nctu_unix_programming.Mini.Sigset.Laws.{has, bit_and-has}
use nctu_unix_programming.Mini.Sys
use nctu_unix_programming.Mini.Sys.{Sys, Mini, MiniM, Action}
use nctu_unix_programming.Mini.Wrappers.{write, alarm, exit, wrapper_ret_val, to_uint}
use nctu_unix_programming.Mini.Text.{sleep, chars}
use nctu_unix_programming.Mini.Terminal.{IsTerminal, Printed, write-Printed}
use nctu_unix_programming.Mini.Signals.{sigprocmask, sigpending, signal, set_size}
use nctu_unix_programming.Mini.Signals.Laws.{IsSignals, IsQuiet, Still, blockable, signal_accepted}
use nctu_unix_programming.Mini.Samples.{
  pending_text, sigint, sigalrm, sig_ign, block_alarm, report_pending, alarm2, alarm3, start,
}

-- Alarms and blocked signals, where no other signal arrives: a signal that is blocked stays pending and
-- does not interrupt a sleep. None of these calls writes to standard output.
pub record IsTimer (S : Sys) (G : IsSignals S) (T : IsTerminal S 1) : Type 0 where
  pub due : S.World → Option ℕ
  pub pending : S.World → Sigset
  pub due-alarm :
      (w : S.World) (n : ℕ)
      → 0 < n
      → let w' = (S.syscall (Sys.alarm n) w).1 in
        (due w' ≡ some n) × (G.mask w' ≡ G.mask w) × (T.output w' ≡ T.output w)
  pub pending-nanosleep :
      (w : S.World) (n m : ℕ)
      → due w ≡ some m
      → m ≤ n
      → digit 13 (G.mask w) ≡ 1
      → let (ret, rem, w') = S.nanosleep n w in
        (ret ≡ pos 0) × (has (pending w') 13 ≡ true) × (T.output w' ≡ T.output w)
  pub pending-rt_sigpending :
      (w : S.World)
      → let (ret, set, w') = S.rt_sigpending set_size w in
        (ret ≡ pos 0) × (set ≡ pending w) × (T.output w' ≡ T.output w)
  pub output-rt_sigprocmask :
      (w : S.World) (set : Sigset)
      → T.output ((S.rt_sigprocmask (pos 0) (some set) set_size w).2) ≡ T.output w

-- SIGALRM alone.
abbrev alarm_set : Sigset
alarm_set = record { sig = 2 ^ 13 }

blocked_digit : (m : ℕ) → digit 13 (bit_and (bit_or m (2 ^ 13)) blockable) ≡ 1
blocked_digit m =
    ground (arith, digit-bit_and 13 (bit_or m (2 ^ 13)) blockable, digit-bit_or 13 m (2 ^ 13))

-- A program that returns a status ends the process with it.
start-exits :
    {S : Sys} (P : Mini S → Type 0) (code : ℤ) (main : MiniM S ℤ) (s : Mini S)
    → Gives (λ a s'. (a ≡ code) × P s') (main s)
    → Stops (exited code) (start main s) × P (final (start main s))
unfolding start exit
start-exits {S} P code main s h = ends (main s) h
  where
    ends :
        (r : Outcome (Mini S) ℤ)
        → Gives (λ a s'. (a ≡ code) × P s') r
        → Stops (exited code) (elim r [ ok a s' ↦ exit a s' | stop e s' ↦ stop e s' ])
          × P (final (elim r [ ok a s' ↦ exit a s' | stop e s' ↦ stop e s' ]))
    ends (ok a s') h = (ap exited h.0, h.1)
    ends (stop e s') h = elim h [ ]

-- A wrapper touches errno only.
value-Gives :
    {S : Sys} (cast : ℤ → ℤ) (ret : ℤ) (s : Mini S)
    → Gives (λ a s'. s'.world ≡ s.world) (wrapper_ret_val cast ret s)
unfolding wrapper_ret_val
value-Gives cast (pos n) s = refl
value-Gives cast (negsuc n) s = refl

module _ (S : Sys) (G : IsSignals S) (T : IsTerminal S 1) (C : IsTimer S G T) where
  -- The signal is blocked, and nothing was printed.
  abbrev Blocked : Mini S → Mini S → Type 0
  Blocked s s' = (digit 13 (G.mask s'.world) ≡ 1) × (T.output s'.world ≡ T.output s.world)

  block_alarm-Blocked : (s : Mini S) → Gives (λ set s'. Blocked s s') (block_alarm s)
  unfolding block_alarm sigprocmask sigemptyset sigaddset wrapper_ret_val
  block_alarm-Blocked s =
      rw ((G.block s.world alarm_set).0, Gives)
        (
          ap (digit 13) (G.block s.world alarm_set).2 ∙ blocked_digit (G.mask s.world),
          C.output-rt_sigprocmask s.world alarm_set,
        )

  report_pending-Printed :
      (set : Sigset) (s : Mini S)
      → has (C.pending s.world) 13 ≡ true
      → Gives
          (λ a s'. (a ≡ pos 0) × (T.output s'.world ≡ T.output s.world ++ pending_text))
          (report_pending set s)
  unfolding report_pending sigpending wrapper_ret_val
  report_pending-Printed set s h =
      rw
        (
          (C.pending-rt_sigpending s.world).0,
          (C.pending-rt_sigpending s.world).1,
          (C.pending-rt_sigpending s.world).0,
          bit_and-has 13 (C.pending s.world),
          h,
          Gives,
        )
        (Gives-bind (λ a s'. Printed S T pending_text got tt s')
          (λ a s'. (a ≡ pos 0) × (T.output s'.world ≡ T.output s.world ++ pending_text))
          (write (pos 1) (chars pending_text) (pos (length pending_text)) got) (λ n. pure (pos 0))
          (write-Printed S T pending_text got (omega arith))
          λ a s' p.
            (refl, p.1 ∙ ap (λ (t : Bytes). t ++ pending_text) (C.pending-rt_sigpending s.world).2))
    where
      got : Mini S
      got = record { errno = pos 0; world = (S.rt_sigpending set_size s.world).2 }

  -- The alarm is due, and nothing was printed.
  abbrev Due : Mini S → Mini S → Type 0
  Due s s' =
      (C.due s'.world ≡ some 3)
      × (G.mask s'.world ≡ G.mask s.world)
      × (T.output s'.world ≡ T.output s.world)

  -- The alarm is pending, and nothing was printed.
  abbrev Pending : Mini S → Mini S → Type 0
  Pending s s' = (has (C.pending s'.world) 13 ≡ true) × (T.output s'.world ≡ T.output s.world)

  alarm-Due : (s : Mini S) → Gives (λ left s'. Due s s') (alarm 3 s)
  unfolding alarm wrapper_ret_val
  alarm-Due s =
      Gives-weaken (λ left s'. s'.world ≡ (S.syscall (Sys.alarm 3) s.world).1) _ (alarm 3 s)
        (value-Gives to_uint ((S.syscall (Sys.alarm 3) s.world).0)
          (record s { world = (S.syscall (Sys.alarm 3) s.world).1 }))
        λ left s' e. rw e (C.due-alarm s.world 3 (omega arith))

  sleep-Pending :
      (s : Mini S)
      → C.due s.world ≡ some 3
      → digit 13 (G.mask s.world) ≡ 1
      → Gives (λ rest s'. Pending s s') (sleep 5 s)
  unfolding sleep
  sleep-Pending s d b = let h = C.pending-nanosleep s.world 5 3 d (omega arith) b in (h.1, h.2)

  alarm2-Printed :
      (s : Mini S)
      → Gives
          (λ a s'. (a ≡ pos 0) × (T.output s'.world ≡ T.output s.world ++ pending_text))
          (alarm2 s)
  unfolding alarm2
  alarm2-Printed s =
      Gives-bind (λ set s1. Blocked s s1) _ (block_alarm s) _ (block_alarm-Blocked s)
        λ set s1 h1.
          Gives-bind (λ left s2. Due s1 s2) _ (alarm 3 s1) _ (alarm-Due s1)
            λ left s2 h2.
              Gives-bind (λ rest s3. Pending s2 s3) _ (sleep 5 s2)
                (λ rest s3. report_pending set s3)
                (sleep-Pending s2 h2.0 (ap (digit 13) h2.1 ∙ h1.0))
                λ rest s3 h3.
                  Gives-weaken
                    (λ a s4. (a ≡ pos 0) × (T.output s4.world ≡ T.output s3.world ++ pending_text))
                    _ (report_pending set s3) (report_pending-Printed set s3 h3.0)
                    λ a s4 h4.
                      (h4.0, h4.1 ∙ ap (λ (t : Bytes). t ++ pending_text) (h3.1 ∙ h2.2 ∙ h1.1))

  -- alarm2.c, started by start.asm, prints that SIGALRM is pending and ends with the status 0.
  pub alarm2_pending :
      (s : Mini S)
      → Stops (exited (pos 0)) (start alarm2 s)
        × (T.output (final (start alarm2 s)).world ≡ T.output s.world ++ pending_text)
  alarm2_pending s =
      start-exits (λ s'. T.output s'.world ≡ T.output s.world ++ pending_text) (pos 0) alarm2 s
        (alarm2-Printed s)

module _ (S : Sys) (G : IsSignals S) (A : IsQuiet S G)
    (accepts : (a : Action) (w : S.World) → (S.rt_sigaction sigalrm a set_size w).0 ≡ pos 0) where
  block_alarm-Still :
      (s : Mini S) → Gives (λ set s'. Still S G A sigalrm s.world s'.world) (block_alarm s)
  unfolding block_alarm sigprocmask sigemptyset sigaddset wrapper_ret_val
  block_alarm-Still s =
      rw ((G.block s.world alarm_set).0, Gives)
        (
          A.due-rt_sigprocmask s.world (pos 0) alarm_set,
          λ k d. A.action_of-rt_sigprocmask s.world (pos 0) alarm_set k,
        )

  -- On a kernel that accepts actions for SIGALRM, alarm3.c writes past a variable at its first call of
  -- signal: there SIGALRM is ignored, its other call of signal has set no action for SIGINT, and its
  -- alarm is not set.
  pub alarm3_undefined :
      (handler : ℕ) (s : Mini S)
      → Stops undefined (alarm3 handler s)
        × (let w' = (final (alarm3 handler s)).world in
            ((G.action_of w' sigalrm).sa_handler ≡ sig_ign)
            × (G.action_of w' sigint ≡ G.action_of s.world sigint)
            × (A.due w' ≡ A.due s.world))
  unfolding alarm3
  alarm3_undefined handler s =
      Stops-final-bind (λ set s1. Still S G A sigalrm s.world s1.world) End undefined
        (block_alarm s) _ (block_alarm-Still s)
        λ set s1 h. Stops-final-then End undefined (signal sigalrm sig_ign s1) _ (
          let (stops, (handled, (due, actions))) =
            signal_accepted S G A sigalrm sig_ign s1 accepts in
          (stops, (handled, actions sigint other ∙ h.1 sigint other, due ∙ h.0)))
    where
      End : Mini S → Type 0
      End s' =
          ((G.action_of s'.world sigalrm).sa_handler ≡ sig_ign)
          × (G.action_of s'.world sigint ≡ G.action_of s.world sigint)
          × (A.due s'.world ≡ A.due s.world)

      other : sigint ≢ sigalrm
      other h = cc
