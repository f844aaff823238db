-- ===== src/Logger/Calls.antt =====
-- The interposed functions of hw2/logger.cpp. Each calls the real function, writes one line to the
-- log, and returns the result. errno is left out: realpath and readlink, which the source calls before
-- or after the real function, can change it.

pub mod Transparent
use nctu_unix_programming.Base.{
  ℕ, ◌+◌, ◌-◌, ◌%◌, ◌^◌, bit_and, Bool, ◌||◌, not, Option, none, some, List, [], ◌∷◌, ltb, leb,
  ◌==◌, if◌then◌else◌, length, String,
}
use nctu_unix_programming.Base.Text.{Bytes}
use nctu_unix_programming.Monad.{M, pure, ◌>>=◌, ◌>>◌, get, halt, undefined}
use nctu_unix_programming.Numbers.{ℤ, pos, to_int}
use nctu_unix_programming.Lsof.Entries.{atoi}
use nctu_unix_programming.Logger.Checkbuf.{checkbuf, c_text}
use nctu_unix_programming.Logger.Libc.{Libc, Call, Line, Field, str, num}
use nctu_unix_programming.Logger.Libc

-- O_CREAT, or O_TMPFILE: flags whose call has a mode.
abbrev pub open_needs_mode : ℕ → Bool
open_needs_mode flags = not (bit_and flags 0x40 == 0) || bit_and flags 0x410000 == 0x410000

abbrev mode_of : ℕ → ℕ → ℕ
mode_of flags arg = if open_needs_mode flags then arg else 0

module _ (L : Libc) where
  -- The real function; a null handle leaves its pointer unset.
  abbrev real : Call → M L.World ℤ
  real c w = if L.loads w then (let (r, w') = L.call c w in pure r w') else halt undefined w

  abbrev pub resolved : L.World → Bytes → Bytes
  resolved w path = elim (L.realpath w path) [ none ↦ path | some r ↦ r ]

  -- realpath, or the path itself, in an array of n bytes that holds its terminator too.
  abbrev resolve : ℕ → Bytes → M L.World Bytes
  resolve n path w =
      if ltb (length (resolved w path)) n then pure (resolved w path) w else halt undefined w

  -- The printed text of a buffer that checkbuf has read.
  abbrev checked : ℕ → M L.World Bytes
  checked ptr w = elim (c_text (checkbuf (λ i. L.byte w (ptr + i)))) [
    | none ↦ halt undefined w
    | some s ↦ pure s w
  ]

  -- getenv, atoi and dprintf; the variable must be set.
  abbrev log : String → List Field → ℤ → M L.World (Unit {0})
  log function fields result w = elim (L.getenv_output_fd w) [
    | none ↦ halt undefined w
    | some fd ↦
        pure tt
          (L.dprintf w (atoi fd) (record { function = function; fields = fields; result = result }))
  ]

  abbrev link_of : ℤ → M L.World Bytes
  link_of fd w = pure (L.fd_link w fd) w

  abbrev fileno : ℕ → M L.World ℤ
  fileno stream w = pure (L.fileno w stream) w

  unfoldable pub chmod : Bytes → ℕ → M L.World ℤ
  chmod pathname mode = do
    retval ← real (Libc.chmod pathname mode)
    path_text ← resolve 1024 pathname
    log "chmod" (str path_text ∷ num (pos mode) ∷ []) (to_int retval)
    pure (to_int retval)

  unfoldable pub creat : Bytes → ℕ → M L.World ℤ
  creat pathname mode = do
    retval ← real (Libc.creat pathname mode)
    path_text ← resolve 200 pathname
    log "creat" (str path_text ∷ num (pos mode) ∷ []) (to_int retval)
    pure (to_int retval)

  unfoldable pub creat64 : Bytes → ℕ → M L.World ℤ
  creat64 pathname mode = do
    retval ← real (Libc.creat64 pathname mode)
    path_text ← resolve 200 pathname
    log "creat64" (str path_text ∷ num (pos mode) ∷ []) (to_int retval)
    pure (to_int retval)

  unfoldable pub chown : Bytes → ℕ → ℕ → M L.World ℤ
  chown pathname owner group = do
    retval ← real (Libc.chown pathname owner group)
    path_text ← resolve 200 pathname
    log "chown" (str path_text ∷ num (pos owner) ∷ num (pos group) ∷ []) (to_int retval)
    pure (to_int retval)

  -- The path is resolved before the file goes.
  unfoldable pub remove : Bytes → M L.World ℤ
  remove pathname = do
    path_text ← resolve 200 pathname
    retval ← real (Libc.remove pathname)
    log "remove" (str path_text ∷ []) (to_int retval)
    pure (to_int retval)

  unfoldable pub open_file : Bytes → ℕ → ℕ → M L.World ℤ
  open_file path flags arg = do
    path_text ← resolve 200 path
    retval ← real (Libc.open_file path flags (mode_of flags arg))
    log "open" (str path_text ∷ num (pos flags) ∷ num (pos (mode_of flags arg)) ∷ [])
        (to_int retval)
    pure (to_int retval)

  unfoldable pub open64 : Bytes → ℕ → ℕ → M L.World ℤ
  open64 path flags arg = do
    path_text ← resolve 200 path
    retval ← real (Libc.open64 path flags (mode_of flags arg))
    log "open64" (str path_text ∷ num (pos flags) ∷ num (pos (mode_of flags arg)) ∷ [])
        (to_int retval)
    pure (to_int retval)

  unfoldable pub rename : Bytes → Bytes → M L.World ℤ
  rename oldpath newpath = do
    resolved_oldpath ← resolve 200 oldpath
    retval ← real (Libc.rename oldpath newpath)
    resolved_newpath ← resolve 200 newpath
    log "rename" (str resolved_oldpath ∷ str resolved_newpath ∷ []) (to_int retval)
    pure (to_int retval)

  unfoldable pub write : ℤ → ℕ → ℕ → M L.World ℤ
  write fd buf count = do
    link ← link_of fd
    retval ← real (Libc.write fd buf count)
    text ← checked buf
    log "write" (str link ∷ str text ∷ num (to_int (pos count)) ∷ []) (to_int retval)
    pure (to_int retval)

  unfoldable pub read : ℤ → ℕ → ℕ → M L.World ℤ
  read fd buf count = do
    retval ← real (Libc.read fd buf count)
    link ← link_of fd
    text ← checked buf
    log "read" (str link ∷ str text ∷ num (to_int (pos count)) ∷ []) (to_int retval)
    pure (to_int retval)

  unfoldable pub close : ℤ → M L.World ℤ
  close fd = do
    link ← link_of fd
    retval ← real (Libc.close fd)
    log "close" (str link ∷ []) (to_int retval)
    pure (to_int retval)

  unfoldable pub fread : ℕ → ℕ → ℕ → ℕ → M L.World ℤ
  fread ptr size nmemb stream = do
    fno ← fileno stream
    link ← link_of fno
    retval ← real (Libc.fread ptr size nmemb stream)
    text ← checked ptr
    log "fread" (str text ∷ num (to_int (pos size)) ∷ num (to_int (pos nmemb)) ∷ str link ∷ [])
        (to_int retval)
    pure retval

  unfoldable pub fopen : Bytes → Bytes → M L.World ℤ
  fopen pathname mode = do
    path_text ← resolve 200 pathname
    retval ← real (Libc.fopen pathname mode)
    log "fopen" (str path_text ∷ str mode ∷ []) retval
    pure retval

  unfoldable pub fopen64 : Bytes → Bytes → M L.World ℤ
  fopen64 pathname mode = do
    path_text ← resolve 200 pathname
    retval ← real (Libc.fopen64 pathname mode)
    log "fopen64" (str path_text ∷ str mode ∷ []) retval
    pure retval

  unfoldable pub fwrite : ℕ → ℕ → ℕ → ℕ → M L.World ℤ
  fwrite ptr size nitems stream = do
    fno ← fileno stream
    link ← link_of fno
    retval ← real (Libc.fwrite ptr size nitems stream)
    text ← checked ptr
    log "fwrite" (str text ∷ num (to_int (pos size)) ∷ num (to_int (pos nitems)) ∷ str link ∷ [])
        (to_int retval)
    pure (to_int retval)

  unfoldable pub fclose : ℕ → M L.World ℤ
  fclose stream = do
    fno ← fileno stream
    link ← link_of fno
    retval ← real (Libc.fclose stream)
    log "fclose" (str link ∷ []) (to_int retval)
    pure (to_int retval)

  unfoldable pub tmpfile : M L.World ℤ
  tmpfile = do retval ← real Libc.tmpfile; log "tmpfile" [] retval; pure retval

  unfoldable pub tmpfile64 : M L.World ℤ
  tmpfile64 = do retval ← real Libc.tmpfile64; log "tmpfile64" [] retval; pure retval

  -- The function that stands in front of a real one.
  unfoldable pub interposed : Call → M L.World ℤ
  unfolding chmod creat creat64 chown remove open_file open64 rename write read close fread fopen
      fopen64 fwrite fclose tmpfile tmpfile64
  interposed (Libc.chmod p m) = chmod p m
  interposed (Libc.creat p m) = creat p m
  interposed (Libc.creat64 p m) = creat64 p m
  interposed (Libc.chown p o g) = chown p o g
  interposed (Libc.remove p) = remove p
  interposed (Libc.open_file p f a) = open_file p f a
  interposed (Libc.open64 p f a) = open64 p f a
  interposed (Libc.rename o n) = rename o n
  interposed (Libc.write fd b n) = write fd b n
  interposed (Libc.read fd b n) = read fd b n
  interposed (Libc.close fd) = close fd
  interposed (Libc.fread p s n f) = fread p s n f
  interposed (Libc.fopen p m) = fopen p m
  interposed (Libc.fopen64 p m) = fopen64 p m
  interposed (Libc.fwrite p s n f) = fwrite p s n f
  interposed (Libc.fclose f) = fclose f
  interposed Libc.tmpfile = tmpfile
  interposed Libc.tmpfile64 = tmpfile64
