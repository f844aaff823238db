-- ===== src/Sdb/Breaks/Memory.antt =====
-- What set_bp and del_bp do to the memory of the program.
use nctu_unix_programming.Base.{
  ℕ, ◌+◌, ◌-◌, ◌<◌, ◌≡◌, ◌&&◌, some, ltb, leb, ◌==◌, if◌then◌else◌, arith,
}
use nctu_unix_programming.Sdb.Kernel.{Kernel, IsLawful}
use nctu_unix_programming.Sdb.Word.{patch}
use nctu_unix_programming.Sdb.Word.Laws.{byte_of-patch}

module _ (K : Kernel) (L : IsLawful K) where
  -- A word that is read in one world, patched, and written in another: its low byte is the new one,
  -- and the seven bytes above it are those of the first world.
  pub byte-patch_from :
      (v w w' : K.World) (p a b q x : ℕ)
      → b < 256
      → K.peek_errno v p a ≡ 0
      → K.poke w p a (patch (K.peek v p a) b) ≡ some w'
      → L.byte w' q x ≡ (
          if q == p && leb a x && ltb x (a + 8)
          then (if x == a then b else L.byte v p x)
          else L.byte w q x)
  byte-patch_from v w w' p a b q x hb e h = ground (
    arith,
    L.byte-poke w w' p a (patch (K.peek v p a) b) q x h,
    byte_of-patch (x - a) (K.peek v p a) b,
    L.peek-lt v p a,
    L.peek-byte v p a (x - a) e,
  )

  -- Writing back a patched word changes the byte at its address and no other.
  pub byte-patch :
      (w w' : K.World) (p a b q x : ℕ)
      → b < 256
      → K.poke w p a (patch (K.peek w p a) b) ≡ some w'
      → L.byte w' q x ≡ (if q == p && x == a then b else L.byte w q x)
  byte-patch w w' p a b q x hb h = ground (
    arith,
    byte-patch_from w w w' p a b q x hb (L.peek_errno-poke w w' p a (patch (K.peek w p a) b) h) h,
  )
