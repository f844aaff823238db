-- ===== src/Logger/Calls/Transparent.antt =====
-- The interposed functions of hw2/logger.cpp against the real ones.
use nctu_unix_programming.Base.{ℕ, ◌+◌, ◌<◌, ◌≡◌, refl, true, some, [], ◌∷◌, length, ltb, arith}
use nctu_unix_programming.Base.Text.{Bytes}
use nctu_unix_programming.Monad.{ok, ◌>>=◌, ◌>>◌}
use nctu_unix_programming.Numbers.{ℤ, pos, IsInt, to_int, to_int-IsInt}
use nctu_unix_programming.Lsof.Entries.{atoi}
use nctu_unix_programming.Logger.Checkbuf.{checkbuf, c_text}
use nctu_unix_programming.Logger.Libc.{Libc, Call, Line, str, num}
use nctu_unix_programming.Logger.Libc
use nctu_unix_programming.Logger.Calls.{
  interposed, resolved, mode_of, chmod, creat, creat64, chown, remove, open_file, open64, rename,
  write, read, close, fread, fopen, fopen64, fwrite, fclose, tmpfile, tmpfile64,
}

-- The call that reaches the C library: open gets a mode of 0 where its flags ask for none.
abbrev pub real_call : Call → Call
real_call (Libc.open_file p f a) = Libc.open_file p f (mode_of f a)
real_call (Libc.open64 p f a) = Libc.open64 p f (mode_of f a)
real_call c = c

-- The result that comes out: fread and the functions that return a pointer keep its 64 bits, the
-- others keep an int.
abbrev pub returned : Call → ℤ → ℤ
returned (Libc.fread p s n f) r = r
returned (Libc.fopen p m) r = r
returned (Libc.fopen64 p m) r = r
returned Libc.tmpfile r = r
returned Libc.tmpfile64 r = r
returned c r = to_int r

-- A real result that the logger can pass on: any for fread and the functions that return a pointer, a
-- number in the range of an int for the others. That is their own type for all but read, write and
-- fwrite, whose real results have 64 bits.
abbrev pub FitsResult : Call → ℤ → Type 0
FitsResult (Libc.fread p s n f) r = Unit
FitsResult (Libc.fopen p m) r = Unit
FitsResult (Libc.fopen64 p m) r = Unit
FitsResult Libc.tmpfile r = Unit
FitsResult Libc.tmpfile64 r = Unit
FitsResult c r = IsInt r

pub returned-FitsResult : (c : Call) (r : ℤ) → FitsResult c r → returned c r ≡ r
returned-FitsResult (Libc.chmod a b) r h = to_int-IsInt r h
returned-FitsResult (Libc.creat a b) r h = to_int-IsInt r h
returned-FitsResult (Libc.creat64 a b) r h = to_int-IsInt r h
returned-FitsResult (Libc.chown a b d) r h = to_int-IsInt r h
returned-FitsResult (Libc.remove a) r h = to_int-IsInt r h
returned-FitsResult (Libc.open_file a b d) r h = to_int-IsInt r h
returned-FitsResult (Libc.open64 a b d) r h = to_int-IsInt r h
returned-FitsResult (Libc.rename a b) r h = to_int-IsInt r h
returned-FitsResult (Libc.write a b d) r h = to_int-IsInt r h
returned-FitsResult (Libc.read a b d) r h = to_int-IsInt r h
returned-FitsResult (Libc.close a) r h = to_int-IsInt r h
returned-FitsResult (Libc.fread a b d e) r h = refl
returned-FitsResult (Libc.fopen a b) r h = refl
returned-FitsResult (Libc.fopen64 a b) r h = refl
returned-FitsResult (Libc.fwrite a b d e) r h = to_int-IsInt r h
returned-FitsResult (Libc.fclose a) r h = to_int-IsInt r h
returned-FitsResult Libc.tmpfile r h = refl
returned-FitsResult Libc.tmpfile64 r h = refl

-- The test of a length that is below its bound.
ltb-of : {a b : ℕ} → a < b → ltb a b ≡ true
ltb-of h = ground arith

module _ (L : Libc) where
  -- The buffer that a call hands to checkbuf has a zero byte in time, and this is its text.
  abbrev HasText : L.World → ℕ → Bytes → Type 0
  HasText w ptr text = c_text (checkbuf (λ i. L.byte w (ptr + i))) ≡ some text

  -- The paths of a call fit their arrays, and its buffer has the text; w is the world before the
  -- real call and v the one after it.
  abbrev pub Ready : L.World → L.World → Bytes → Call → Type 0
  Ready w v text (Libc.chmod p m) = length (resolved L v p) < 1024
  Ready w v text (Libc.creat p m) = length (resolved L v p) < 200
  Ready w v text (Libc.creat64 p m) = length (resolved L v p) < 200
  Ready w v text (Libc.chown p o g) = length (resolved L v p) < 200
  Ready w v text (Libc.remove p) = length (resolved L w p) < 200
  Ready w v text (Libc.open_file p f a) = length (resolved L w p) < 200
  Ready w v text (Libc.open64 p f a) = length (resolved L w p) < 200
  Ready w v text (Libc.rename o n) =
      (length (resolved L w o) < 200) × (length (resolved L v n) < 200)
  Ready w v text (Libc.write fd b n) = HasText v b text
  Ready w v text (Libc.read fd b n) = HasText v b text
  Ready w v text (Libc.fread p s n f) = HasText v p text
  Ready w v text (Libc.fopen p m) = length (resolved L w p) < 200
  Ready w v text (Libc.fopen64 p m) = length (resolved L w p) < 200
  Ready w v text (Libc.fwrite p s n f) = HasText v p text
  Ready w v text _ = Unit

  -- What is printed of each call: a path that names a file before the call is resolved before it.
  abbrev pub line_of : L.World → L.World → Bytes → ℤ → Call → Line
  line_of w v text r (Libc.chmod p m) = record {
    function = "chmod";
    fields = str (resolved L v p) ∷ num (pos m) ∷ [];
    result = r;
  }
  line_of w v text r (Libc.creat p m) = record {
    function = "creat";
    fields = str (resolved L v p) ∷ num (pos m) ∷ [];
    result = r;
  }
  line_of w v text r (Libc.creat64 p m) = record {
    function = "creat64";
    fields = str (resolved L v p) ∷ num (pos m) ∷ [];
    result = r;
  }
  line_of w v text r (Libc.chown p o g) = record {
    function = "chown";
    fields = str (resolved L v p) ∷ num (pos o) ∷ num (pos g) ∷ [];
    result = r;
  }
  line_of w v text r (Libc.remove p) = record {
    function = "remove";
    fields = str (resolved L w p) ∷ [];
    result = r;
  }
  line_of w v text r (Libc.open_file p f a) = record {
    function = "open";
    fields = str (resolved L w p) ∷ num (pos f) ∷ num (pos (mode_of f a)) ∷ [];
    result = r;
  }
  line_of w v text r (Libc.open64 p f a) = record {
    function = "open64";
    fields = str (resolved L w p) ∷ num (pos f) ∷ num (pos (mode_of f a)) ∷ [];
    result = r;
  }
  line_of w v text r (Libc.rename o n) = record {
    function = "rename";
    fields = str (resolved L w o) ∷ str (resolved L v n) ∷ [];
    result = r;
  }
  line_of w v text r (Libc.write fd b n) = record {
    function = "write";
    fields = str (L.fd_link w fd) ∷ str text ∷ num (to_int (pos n)) ∷ [];
    result = r;
  }
  line_of w v text r (Libc.read fd b n) = record {
    function = "read";
    fields = str (L.fd_link v fd) ∷ str text ∷ num (to_int (pos n)) ∷ [];
    result = r;
  }
  line_of w v text r (Libc.close fd) = record {
    function = "close";
    fields = str (L.fd_link w fd) ∷ [];
    result = r;
  }
  line_of w v text r (Libc.fread p s n f) = record {
    function = "fread";
    fields =
        str text
        ∷ num (to_int (pos s))
        ∷ num (to_int (pos n))
        ∷ str (L.fd_link w (L.fileno w f))
        ∷ [];
    result = to_int r;
  }
  line_of w v text r (Libc.fopen p m) = record {
    function = "fopen";
    fields = str (resolved L w p) ∷ str m ∷ [];
    result = r;
  }
  line_of w v text r (Libc.fopen64 p m) = record {
    function = "fopen64";
    fields = str (resolved L w p) ∷ str m ∷ [];
    result = r;
  }
  line_of w v text r (Libc.fwrite p s n f) = record {
    function = "fwrite";
    fields =
        str text
        ∷ num (to_int (pos s))
        ∷ num (to_int (pos n))
        ∷ str (L.fd_link w (L.fileno w f))
        ∷ [];
    result = r;
  }
  line_of w v text r (Libc.fclose f) = record {
    function = "fclose";
    fields = str (L.fd_link w (L.fileno w f)) ∷ [];
    result = r;
  }
  line_of w v text r Libc.tmpfile = record { function = "tmpfile"; fields = []; result = r }
  line_of w v text r Libc.tmpfile64 = record { function = "tmpfile64"; fields = []; result = r }

  -- What each of the interposed functions does, whatever the real one returned.
  pub interposed_lem :
      (c : Call) (w : L.World) (fd text : Bytes)
      → let v = (L.call (real_call c) w).1 in
        let r = returned c ((L.call (real_call c) w).0) in
        L.loads w ≡ true
        → L.getenv_output_fd v ≡ some fd
        → Ready w v text c
        → interposed L c w ≡ ok r (L.dprintf v (atoi fd) (line_of w v text r c))
  unfolding interposed chmod creat creat64 chown remove open_file open64 rename write read close
      fread fopen fopen64 fwrite fclose tmpfile tmpfile64
  interposed_lem (Libc.chmod p m) w fd text l g h = rw (◌>>=◌, ◌>>◌, l, ltb-of h, g) refl
  interposed_lem (Libc.creat p m) w fd text l g h = rw (◌>>=◌, ◌>>◌, l, ltb-of h, g) refl
  interposed_lem (Libc.creat64 p m) w fd text l g h = rw (◌>>=◌, ◌>>◌, l, ltb-of h, g) refl
  interposed_lem (Libc.chown p o q) w fd text l g h = rw (◌>>=◌, ◌>>◌, l, ltb-of h, g) refl
  interposed_lem (Libc.remove p) w fd text l g h = rw (◌>>=◌, ◌>>◌, ltb-of h, l, g) refl
  interposed_lem (Libc.open_file p f a) w fd text l g h = rw (◌>>=◌, ◌>>◌, ltb-of h, l, g) refl
  interposed_lem (Libc.open64 p f a) w fd text l g h = rw (◌>>=◌, ◌>>◌, ltb-of h, l, g) refl
  interposed_lem (Libc.rename o n) w fd text l g h =
      rw (◌>>=◌, ◌>>◌, ltb-of h.0, l, ltb-of h.1, g) refl
  interposed_lem (Libc.write d b n) w fd text l g h = rw (◌>>=◌, ◌>>◌, l, h, g) refl
  interposed_lem (Libc.read d b n) w fd text l g h = rw (◌>>=◌, ◌>>◌, l, h, g) refl
  interposed_lem (Libc.close d) w fd text l g h = rw (◌>>=◌, ◌>>◌, l, g) refl
  interposed_lem (Libc.fread p s n f) w fd text l g h = rw (◌>>=◌, ◌>>◌, l, h, g) refl
  interposed_lem (Libc.fopen p m) w fd text l g h = rw (◌>>=◌, ◌>>◌, ltb-of h, l, g) refl
  interposed_lem (Libc.fopen64 p m) w fd text l g h = rw (◌>>=◌, ◌>>◌, ltb-of h, l, g) refl
  interposed_lem (Libc.fwrite p s n f) w fd text l g h = rw (◌>>=◌, ◌>>◌, l, h, g) refl
  interposed_lem (Libc.fclose f) w fd text l g h = rw (◌>>=◌, ◌>>◌, l, g) refl
  interposed_lem Libc.tmpfile w fd text l g h = rw (◌>>=◌, ◌>>◌, l, g) refl
  interposed_lem Libc.tmpfile64 w fd text l g h = rw (◌>>=◌, ◌>>◌, l, g) refl
