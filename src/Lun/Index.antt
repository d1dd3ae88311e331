-- ===== src/Lun/Index.antt =====
-- sce_lun.c: which LUN indices are in use, and the search for a LUN by its context.
use iostash.Prelude.{
  ℕ, zero, suc, true, false, not, ◌&&◌, Option, none, some, if◌then◌else◌, ltb, ◌==◌,
}
use iostash.Word.{sce_maxlun}
use iostash.State.{Sce, Lun, Ret, success, error}

-- `_lun_isvalididx`
abbrev pub lun_isvalididx : Sce → ℕ → Ret
lun_isvalididx s lunidx =
    if ltb lunidx sce_maxlun
      && ((s.luntbl lunidx).has_fragmap && not (s.luntbl lunidx).waiting4deletion)
    then success
    else error

-- `_lun_is_serviceable`
abbrev pub lun_is_serviceable : Lun → Ret
lun_is_serviceable l = if l.waiting4deletion then error else success

-- The loop of `_lun_search` from index `i` on, with `k` indices left.
unfoldable pub search_from : (k i : ℕ) → (ℕ → ℕ) → (ctx : ℕ) → Option ℕ
search_from zero i ctxs ctx = none
search_from (suc k) i ctxs ctx = elim (ctxs i == ctx) [
  | true ↦ some i
  | false ↦ search_from k (suc i) ctxs ctx
]

-- `_lun_search`; none is -1.
unfoldable pub lun_search : Sce → (lunctx : ℕ) → Option ℕ
lun_search s lunctx = search_from sce_maxlun 0 (λ i. (s.luntbl i).lunctx) lunctx
