-- ===== src/Sdb/Breaks/Table.antt =====
-- The break point table: which addresses it holds after an append and an erase.
use nctu_unix_programming.Base.{
  ℕ, zero, suc, ◌≡◌, refl, true, false, ◌||◌, some, List, [], ◌∷◌, ◌++◌, ◌==◌, if◌then◌else◌,
  get_elem?, erase_at, arith, All,
}
use mathlib.Core.Path.{subst}
use mathlib.Core.Option.{some-injective}
use nctu_unix_programming.Sdb.State.{Breakpoint}
use nctu_unix_programming.Sdb.Breaks.{has_bp}

-- No address stands twice.
abbrev pub Distinct : List Breakpoint → Type 0
Distinct [] = Unit {0}
Distinct (bp ∷ bps) = (has_bp bps bp.addr ≡ false) × Distinct bps

pub has_bp-append :
    (bps : List Breakpoint) (bp : Breakpoint) (x : ℕ)
    → has_bp (bps ++ (bp ∷ [])) x ≡ (bp.addr == x || has_bp bps x)
unfolding has_bp
has_bp-append [] bp x = ground arith
has_bp-append (it ∷ bps) bp x = ground (arith, has_bp-append bps bp x)

pub Distinct-append :
    (bps : List Breakpoint) (bp : Breakpoint)
    → Distinct bps
    → has_bp bps bp.addr ≡ false
    → Distinct (bps ++ (bp ∷ []))
unfolding has_bp
Distinct-append [] bp h e = (refl, tt)
Distinct-append (it ∷ bps) bp h e =
    ground (arith, has_bp-append bps bp it.addr, Distinct-append bps bp h.1)

pub has_bp_of_get_elem? :
    (bps : List Breakpoint) (i : ℕ) (bp : Breakpoint)
    → get_elem? bps i ≡ some bp
    → has_bp bps bp.addr ≡ true
unfolding has_bp
has_bp_of_get_elem? [] i bp e = ground arith
has_bp_of_get_elem? (it ∷ bps) zero bp e = ground arith
has_bp_of_get_elem? (it ∷ bps) (suc i) bp e = ground (arith, has_bp_of_get_elem? bps i bp)

-- Erasing an entry takes its address out, and no other.
pub has_bp-erase_at :
    (bps : List Breakpoint) (i : ℕ) (bp : Breakpoint) (x : ℕ)
    → Distinct bps
    → get_elem? bps i ≡ some bp
    → has_bp (erase_at i bps) x ≡ (if bp.addr == x then false else has_bp bps x)
unfolding has_bp
has_bp-erase_at [] i bp x h e = ground arith
has_bp-erase_at (it ∷ bps) zero bp x h e = ground arith
has_bp-erase_at (it ∷ bps) (suc i) bp x h e =
    ground (arith, has_bp-erase_at bps i bp x h.1, has_bp_of_get_elem? bps i bp)

pub Distinct-erase_at :
    (bps : List Breakpoint) (i : ℕ) (bp : Breakpoint)
    → Distinct bps
    → get_elem? bps i ≡ some bp
    → Distinct (erase_at i bps)
unfolding has_bp
Distinct-erase_at [] i bp h e = tt
Distinct-erase_at (it ∷ bps) zero bp h e = h.1
Distinct-erase_at (it ∷ bps) (suc i) bp h e =
    ground (arith, Distinct-erase_at bps i bp h.1, has_bp-erase_at bps i bp it.addr h.1)

module _ {ℓ κ} {A : Type ℓ} (P : A → Type κ) where
  pub All-erase_at : (xs : List A) (i : ℕ) → All P xs → All P (erase_at i xs)
  All-erase_at [] i h = h
  All-erase_at (x ∷ xs) zero h = h.1
  All-erase_at (x ∷ xs) (suc i) h = (h.0, All-erase_at xs i h.1)

  pub All-get_elem? : (xs : List A) (i : ℕ) (y : A) → All P xs → get_elem? xs i ≡ some y → P y
  All-get_elem? [] i y h e = absurd (ground arith)
  All-get_elem? (x ∷ xs) zero y h e = subst P (some-injective _ _ e) h.0
  All-get_elem? (x ∷ xs) (suc i) y h e = All-get_elem? xs i y h.1 e
