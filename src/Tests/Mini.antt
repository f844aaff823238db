-- ===== src/Tests/Mini.antt =====
-- A small system for the library of hw3: memory, two descriptors, one alarm, and signals.
use nctu_unix_programming.Base.{
  ℕ, zero, suc, ◌-◌, ◌^◌, ◌≤◌, ◌≡◌, ◌≢◌, refl, ap, bit_and, bit_or, Option, none, some, Bool-cases,
  inl, inr, true, ==_refl, ◌++◌, ◌==◌, leb, ◌&&◌, if◌then◌else◌, arith,
}
use nctu_unix_programming.Base.Text.{Bytes}
use nctu_unix_programming.Base.Bits.{digit}
use nctu_unix_programming.Numbers.{ℤ, pos, negsuc}
use nctu_unix_programming.Mini.Sigset.{Sigset}
use nctu_unix_programming.Mini.Sys
use nctu_unix_programming.Mini.Sys.{Sys, Mini, Call, Action}
use nctu_unix_programming.Mini.Terminal.{IsTerminal, first_bytes}
use nctu_unix_programming.Mini.Text.Bzero.{IsMemory}
use nctu_unix_programming.Mini.Signals.Laws.{IsSignals, IsQuiet, blockable}
use nctu_unix_programming.Mini.Samples.Laws.{IsTimer}

pub record Process : Type 0 where
  pub bytes : ℕ → ℕ
  pub out : Bytes
  pub err : Bytes
  pub blocked : ℕ
  pub alarm_due : Option ℕ
  pub waiting : Sigset
  pub actions : ℕ → Action

abbrev unset : Action
unset = record { sa_handler = 77; sa_flags = 78; sa_restorer = 79; sa_mask = record { sig = 4 } }

abbrev entered : Call → Process → ℤ × Process
entered (Sys.write (pos (suc zero)) buf (pos n)) w =
    (pos n, record w { out = w.out ++ first_bytes n buf })
entered (Sys.write (pos (suc (suc zero))) buf (pos n)) w =
    (pos n, record w { err = w.err ++ first_bytes n buf })
entered (Sys.alarm n) w = (pos 0, record w { alarm_due = some n })
entered (Sys.umask m) w = (pos 18, w)
-- ENOSYS
entered c w = (negsuc 37, w)

-- A sleep of n seconds; the alarm is pending if it was due by then and SIGALRM is blocked.
abbrev slept : ℕ → Process → ℤ × ℕ × Process
slept n w = elim w.alarm_due [
  | none ↦ (pos 0, 0, w)
  | some m ↦
      if leb m n && (digit 13 w.blocked == 1)
      then (pos 0, 0, record w { alarm_due = none; waiting = record { sig = 2 ^ 13 } })
      else (negsuc 3, n - m, record w { alarm_due = none })
]

abbrev masked : ℤ → Option Sigset → Process → ℤ × Sigset × Process
masked (pos zero) (some set) w = (
  pos 0,
  record { sig = w.blocked },
  record w { blocked = bit_and (bit_or w.blocked set.sig) blockable },
)
masked how set w = (negsuc 21, record { sig = 0 }, w)

-- SIGKILL has no action.
abbrev acted : ℤ → Action → Process → ℤ × Process
acted (pos n) a w =
    if n == 9
    then (negsuc 21, w)
    else (pos 0, record w { actions = λ k. if k == n then a else w.actions k })
acted (negsuc n) a w = (negsuc 21, w)

abbrev pub small : Sys
small = record {
  World = Process;
  syscall = entered;
  nanosleep = slept;
  rt_sigprocmask = λ how set size w. masked how set w;
  rt_sigpending = λ size w. (pos 0, w.waiting, w);
  rt_sigaction = λ how a size w. acted how a w;
  peek = λ w a. w.bytes a;
  poke = λ w a v. record w { bytes = λ b. if a == b then v else w.bytes b };
  sigreturn = 4096;
  unset_number = 7;
  unset_action = unset;
}

unfoldable pub small-IsMemory : IsMemory small
small-IsMemory w a v b = refl

unfoldable pub small_out-IsTerminal : IsTerminal small 1
small_out-IsTerminal = record {
  output = λ w. w.out;
  write_all = λ w buf n h. refl;
  output-write = λ w buf n h. refl;
}

unfoldable pub small_err-IsTerminal : IsTerminal small 2
small_err-IsTerminal = record {
  output = λ w. w.err;
  write_all = λ w buf n h. refl;
  output-write = λ w buf n h. refl;
}

abbrev action_of : Process → ℤ → Action
action_of w (pos n) = w.actions n
action_of w (negsuc n) = unset

pub blocked-acted : (w : Process) (how : ℤ) (a : Action) → ((acted how a w).1).blocked ≡ w.blocked
blocked-acted w (pos n) a = ground arith
blocked-acted w (negsuc n) a = refl

pub action_of-acted :
    (w : Process) (how : ℤ) (a : Action) (n : ℕ)
    → (acted how a w).0 ≡ pos n
    → action_of ((acted how a w).1) how ≡ a
action_of-acted w (pos k) a n h = elim (Bool-cases (k == 9)) [
  | inl e ↦ let killed : negsuc 21 ≡ pos n = rw e at h in cc
  | inr e ↦ rw (e, ==_refl k) refl
]
action_of-acted w (negsuc k) a n h = cc

unfoldable pub small-IsSignals : IsSignals small
small-IsSignals = record {
  mask = λ w. w.blocked;
  action_of = action_of;
  block = λ w set. (refl, refl, refl);
  mask-rt_sigaction = blocked-acted;
  action-rt_sigaction = action_of-acted;
}

pub due-masked :
    (w : Process) (how : ℤ) (set : Sigset) → ((masked how (some set) w).2).alarm_due ≡ w.alarm_due
due-masked w (pos zero) set = refl
due-masked w (pos (suc n)) set = refl
due-masked w (negsuc n) set = refl

pub actions-masked :
    (w : Process) (how : ℤ) (set : Sigset) (k : ℤ)
    → action_of ((masked how (some set) w).2) k ≡ action_of w k
actions-masked w (pos zero) set (pos k) = refl
actions-masked w (pos zero) set (negsuc k) = refl
actions-masked w (pos (suc n)) set k = refl
actions-masked w (negsuc n) set k = refl

pub due-acted : (w : Process) (how : ℤ) (a : Action) → ((acted how a w).1).alarm_due ≡ w.alarm_due
due-acted w (pos n) a = ground arith
due-acted w (negsuc n) a = refl

pub other-acted :
    (w : Process) (how : ℤ) (a : Action) (k : ℤ)
    → k ≢ how
    → action_of ((acted how a w).1) k ≡ action_of w k
other-acted w (pos n) a (negsuc k) d = refl
other-acted w (negsuc n) a k d = refl
other-acted w (pos n) a (pos k) d = elim (Bool-cases (n == 9)) [
  | inl e ↦ rw e refl
  | inr e ↦ elim (Bool-cases (k == n)) [
    | inl f ↦ let same : k ≡ n = ground arith in absurd (d (ap pos same))
    | inr f ↦ rw (e, f) refl
  ]
]

unfoldable pub small-IsQuiet : IsQuiet small small-IsSignals
unfolding small-IsSignals
small-IsQuiet = record {
  due = λ w. w.alarm_due;
  due-rt_sigprocmask = due-masked;
  due-rt_sigaction = due-acted;
  action_of-rt_sigprocmask = actions-masked;
  action_of-rt_sigaction = other-acted;
}

pub waiting-slept :
    (w : Process) (n m : ℕ)
    → w.alarm_due ≡ some m
    → m ≤ n
    → digit 13 w.blocked ≡ 1
    → let (ret, rem, w') = slept n w in
      (ret ≡ pos 0) × ((digit 13 w'.waiting.sig == 1) ≡ true) × (w'.out ≡ w.out)
waiting-slept w n m d h b = rw (d, ripe) (refl, refl, refl)
  where
    ripe : (leb m n && (digit 13 w.blocked == 1)) ≡ true
    ripe = ground (arith, b, h)

unfoldable pub small-IsTimer : IsTimer small small-IsSignals small_out-IsTerminal
unfolding small-IsSignals small_out-IsTerminal
small-IsTimer = record {
  due = λ w. w.alarm_due;
  pending = λ w. w.waiting;
  due-alarm = λ w n h. (refl, refl, refl);
  pending-nanosleep = waiting-slept;
  pending-rt_sigpending = λ w. (refl, refl, refl);
  output-rt_sigprocmask = λ w set. refl;
}
