-- ===== src/Sdb/Breaks.antt =====
-- set_bp, del_bp and list of hw4/sdb.cpp: the break point table and the bytes that it patches.
pub mod Table
pub mod Memory
pub mod Refines
pub mod Again
pub mod Undo
use nctu_unix_programming.Base.{
  ℕ, suc, Bool, true, false, ◌||◌, none, some, List, [], ◌∷◌, ◌++◌, ◌==◌, if◌then◌else◌, get_elem?,
  erase_at,
}
use nctu_unix_programming.Sdb.Kernel.{Kernel}
use nctu_unix_programming.Monad.{pure, ◌>>◌, modify, when}
use nctu_unix_programming.Numbers.{ℤ, to_u64}
use nctu_unix_programming.Sdb.Word.{byte_of, patch, int3}
use nctu_unix_programming.Sdb.State.{
  Breakpoint, no_breakpoint, Sdb, text, breakpoint_deleted, breakpoint_missing, breakpoint_line,
  is_running, say, poke,
}

-- The search of set_bp for a break point at an address.
unfoldable pub has_bp : List Breakpoint → ℕ → Bool
has_bp [] addr = false
has_bp (it ∷ bps) addr = it.addr == addr || has_bp bps addr

abbrev pub is_empty : List Breakpoint → Bool
is_empty [] = true
is_empty (bp ∷ bps) = false

module _ {K : Kernel} where
  abbrev push_bp : Breakpoint → Sdb K (Unit {0})
  push_bp bp =
      modify λ d. record d { info = record (d.info) { bp_vec = d.info.bp_vec ++ (bp ∷ []) } }

  -- set_bp once the program is known to run.
  unfoldable pub set_bp_running : ℕ → Sdb K (Unit {0})
  unfolding has_bp
  set_bp_running addr d =
      let code = K.peek d.world d.info.pid addr in
      if has_bp d.info.bp_vec addr
      then pure tt d
      else (do
        push_bp (record { addr = addr; orig_patch = byte_of 0 code })
        poke d.info.pid addr (patch code int3))
          d

  unfoldable pub set_bp : ℕ → Sdb K (Unit {0})
  unfolding set_bp_running
  set_bp addr d =
      if is_running d.info.state
      then set_bp_running addr d
      else say (text "** state must be RUNNING.\n") d

  -- The branch of del_bp for an index in range.
  unfoldable pub remove_bp : ℕ → ℤ → Breakpoint → Sdb K (Unit {0})
  remove_bp i idx bp d =
      (do
        when (d.bp_restore.addr == bp.addr) (modify λ d. record d { bp_restore = no_breakpoint })
        poke d.info.pid bp.addr (patch (K.peek d.world d.info.pid bp.addr) bp.orig_patch)
        modify λ d. record d { info = record (d.info) { bp_vec = erase_at i d.info.bp_vec } }
        say (breakpoint_deleted idx))
        d

  -- `size() > idx` compares as size_t, so a negative index is larger than any size.
  unfoldable pub del_bp : ℤ → Sdb K (Unit {0})
  unfolding remove_bp
  del_bp idx d = elim (get_elem? d.info.bp_vec (to_u64 idx)) [
    | some bp ↦ remove_bp (to_u64 idx) idx bp d
    | none ↦ say (breakpoint_missing idx) d
  ]

  -- The loop of list, from index i on.
  unfoldable pub list_from : ℕ → List Breakpoint → Sdb K (Unit {0})
  list_from i [] = pure tt
  list_from i (bp ∷ bps) = do say (breakpoint_line i bp.addr); list_from (suc i) bps

  unfoldable pub list : Sdb K (Unit {0})
  unfolding list_from
  list d =
      if is_empty d.info.bp_vec
      then say (text "** No breakpoint\n") d
      else list_from 0 d.info.bp_vec d
