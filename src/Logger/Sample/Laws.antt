-- ===== src/Logger/Sample/Laws.antt =====
-- Programs under the logger of hw2/logger.cpp against the same programs without it.
use nctu_unix_programming.Base.{◌≡◌, true, some}
use nctu_unix_programming.Base.Text.{Bytes}
use nctu_unix_programming.Numbers.{ℤ}
use nctu_unix_programming.Lsof.Entries.{atoi}
use nctu_unix_programming.Logger.Libc.{Libc, Call, Line}
use nctu_unix_programming.Logger.Calls.Transparent.{real_call, FitsResult, Ready, line_of}
use nctu_unix_programming.Logger.Sample.{Program, finish, ask}

-- A log that the functions do not look at: worlds that differ in the log only.
pub record IsLog (L : Libc) : Type 1 where
  pub Same : L.World → L.World → Type 0
  pub call-Same :
      (c : Call) (w v : L.World)
      → Same w v
      → ((L.call c w).0 ≡ (L.call c v).0) × Same ((L.call c w).1) ((L.call c v).1)
  pub dprintf-Same :
      (w v : L.World) (fd : ℤ) (line : Line) → Same w v → Same (L.dprintf w fd line) v
  -- open does not look at a mode that its flags do not ask for.
  pub call-real_call : (c : Call) (w : L.World) → L.call (real_call c) w ≡ L.call c w

module _ (L : Libc) where
  -- The world after a call and its line in the log.
  abbrev pub logged : L.World → Bytes → Bytes → Call → L.World
  logged w fd text c =
      let (r, v) = L.call (real_call c) w in L.dprintf v (atoi fd) (line_of L w v text r c)

  -- At each call of a run under the logger the real result is in the range of an int, if the logger
  -- lets the function return an int, the C library is found, OUTPUT_FD is set after the real call, the
  -- paths fit their arrays, and the buffer has a terminated text.
  abbrev pub Traced : Program → L.World → Type 0
  Traced (finish status) w = Unit
  Traced (ask c k) w =
      let (r, v) = L.call (real_call c) w in
      (fd : Bytes) × (text : Bytes) × FitsResult c r
      × (L.loads w ≡ true)
      × (L.getenv_output_fd v ≡ some fd)
      × Ready L w v text c
      × Traced (k r) (logged w fd text c)
