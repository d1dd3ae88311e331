-- ===== src/Misslog.antt =====
-- sce_misslog.c: the ring of the most recent misses.
pub mod Recent
use iostash.Prelude.{
  ℕ, zero, suc, ◌+◌, ◌-◌, Bool, true, false, not, ◌&&◌, Option, none, some, if◌then◌else◌, ltb, leb,
  ◌==◌, update,
}
use iostash.Word.{sce_maxlun, sce_cachemisslogsize}
use iostash.State.{Sce, Ret, success, error}
use iostash.Lun.Index.{lun_isvalididx}

-- `_misslog_put`
unfoldable pub misslog_put : (lunidx fragnum : ℕ) → Sce → Sce
misslog_put lunidx fragnum s = record s {
  misslog_fragnum = update s.misslog_fragnum s.misslog_head fragnum;
  misslog_lunidx = update s.misslog_lunidx s.misslog_head lunidx;
  misslog_head = if s.misslog_head + 1 == sce_cachemisslogsize then 0 else s.misslog_head + 1;
  misslog_size =
      if ltb s.misslog_size sce_cachemisslogsize then s.misslog_size + 1 else s.misslog_size;
}

-- The place in the ring of the entry `idx` back from the most recent one.
abbrev pub misslog_place : Sce → ℕ → ℕ
misslog_place s idx =
    if leb (idx + 1) s.misslog_head
    then s.misslog_head - (idx + 1)
    else sce_cachemisslogsize - (idx + 1 - s.misslog_head)

-- `_misslog_get`: what it writes through the two pointers, if anything, and its result.
unfoldable pub misslog_get : Sce → (idx : ℕ) → Ret × Option (ℕ × ℕ)
misslog_get s idx =
    let i = misslog_place s idx in
    if ltb idx s.misslog_size
    then (lun_isvalididx s (s.misslog_lunidx i), some (s.misslog_lunidx i, s.misslog_fragnum i))
    else (error, none)

-- `INVALID_MISSLOG_LUN`
abbrev pub invalid_misslog_lun : ℕ
invalid_misslog_lun = 0xffff

-- The loop of `_misslog_gc` from place `i` on, with `k` places left.
unfoldable pub gc_from : (k i : ℕ) → Sce → Sce
gc_from zero i s = s
gc_from (suc k) i s = gc_from k (suc i) (elim (lun_isvalididx s (s.misslog_lunidx i)) [
  | success ↦ s
  | error ↦ record s { misslog_lunidx = update s.misslog_lunidx i invalid_misslog_lun }
])

-- `_misslog_gc`
unfoldable pub misslog_gc : Sce → Sce
misslog_gc s = gc_from sce_cachemisslogsize 0 s
