-- ===== src/Mini/Text/Bzero.antt =====
-- bzero of hw3/libmini.c against memory.
use nctu_unix_programming.Base.{
  ℕ, ap, ==_ne, ◌-◌, ◌^◌, ◌≤◌, ◌≢◌, zero, suc, ◌+◌, ◌≡◌, refl, ◌&&◌, leb, ltb, ◌==◌, if◌then◌else◌,
  arith,
}
use nctu_unix_programming.Monad.{Gives, Gives-weaken}
use nctu_unix_programming.Numbers.{ℤ, pos, negsuc}
use nctu_unix_programming.Mini.Sys.{Sys, Mini}
use nctu_unix_programming.Mini.Text.{bzero, bzero_loop}

-- A write changes one byte of memory.
abbrev pub IsMemory : Sys → Type 0
IsMemory S =
    (w : S.World) (a v b : ℕ) → S.peek (S.poke w a v) b ≡ (if a == b then v else S.peek w b)

-- The number of bytes that a size stands for.
abbrev pub bytes_in : ℤ → ℕ
bytes_in (pos n) = n
bytes_in (negsuc n) = 0

module _ (S : Sys) (memory : IsMemory S) where
  -- Zeros from an address on, and no other change.
  abbrev Zeroed : ℕ → ℕ → Mini S → Unit {0} → Mini S → Type 0
  Zeroed size ptr s _ s' =
      (s'.errno ≡ s.errno)
      × ((b : ℕ)
          → S.peek s'.world b ≡ (if leb ptr b && ltb b (ptr + size) then 0 else S.peek s.world b))

  bzero_loop-peek : (size ptr : ℕ) (s : Mini S) → Gives (Zeroed size ptr s) (bzero_loop size ptr s)
  unfolding bzero_loop
  bzero_loop-peek zero ptr s = (refl, λ b. ground arith)
  bzero_loop-peek (suc size) ptr s =
      Gives-weaken (Zeroed size (suc ptr) (record s { world = S.poke s.world ptr 0 }))
        (Zeroed (suc size) ptr s)
        (bzero_loop size (suc ptr) (record s { world = S.poke s.world ptr 0 }))
        (bzero_loop-peek size (suc ptr) (record s { world = S.poke s.world ptr 0 }))
        λ _ s' h. (h.0, λ b. ground (arith, h.1 b, memory s.world ptr 0 b))

  -- For a size that is not the least number of its type, and bytes that do not go past the end of
  -- memory, bzero returns, puts zeros into as many bytes from its pointer on as the size says, none
  -- for a negative size, and leaves every other byte and errno as they were.
  pub bzero-peek :
      (ptr : ℕ) (size : ℤ) (s : Mini S)
      → size ≢ negsuc (2 ^ 63 - 1)
      → ptr + bytes_in size ≤ 2 ^ 64
      → Gives
          (λ _ s'.
            (s'.errno ≡ s.errno)
            × ((b : ℕ)
                → S.peek s'.world b
                  ≡ (if leb ptr b && ltb b (ptr + bytes_in size) then 0 else S.peek s.world b)))
          (bzero ptr size s)
  unfolding bzero
  bzero-peek ptr (pos n) s h e = bzero_loop-peek n ptr s
  bzero-peek ptr (negsuc n) s h e =
      rw (==_ne n (2 ^ 63 - 1) (λ k. h (ap negsuc k)), Gives) (refl, λ b. ground arith)
