-- ===== src/Interface/Io.antt =====
-- sce_interface.c: reads and writes of a LUN.
pub mod Invalidate
pub mod Pages
pub mod Write
pub mod Read
pub mod Stale
pub mod Done
use iostash.Prelude.{
  ℕ, zero, suc, ◌+◌, ◌-◌, ◌*◌, ◌/◌, ◌%◌, ◌^◌, Bool, true, false, not, ◌&&◌, ◌||◌, Option, none,
  some, if◌then◌else◌, ltb, ◌==◌, min,
}
use iostash.Word.{
  sce_pageperfrag, sce_sctrperfrag, sce_sctrperpage, sce_refceiling, is_mapped, is_valid,
  fragdesc_inc, u16_inc, u32_add, u64_add, u64_sub,
}
use iostash.State.{
  Sce, Lun, Ret, success, error, bug, out_of_fuel, Cmd, pure, when, ◌>>=◌, ◌>>◌, Loc, load, store,
  read, modify, modify_lun, modify_stats, set_desc, load_desc,
}
use iostash.Util.{Fmap, fmap_of, pfid2frag}
use iostash.Fragment.{frag_invalidate, frag_isvalid}
use iostash.Lun.{lun_gc}
use iostash.Misslog.{misslog_put}

-- What `_lock_lun` checks of a request on a LUN; `sector_t` has 64 bits.
abbrev pub lock_lun : Lun → (sctrnum nr_sctr : ℕ) → (svcchk : Bool) → Bool
lock_lun l sctrnum nr_sctr svcchk =
    l.has_scehndl
    && (l.has_fragmap
        && (not (nr_sctr == 0)
            && (not (ltb l.nr_sctr ((sctrnum + nr_sctr) % 2 ^ 64))
                && not (svcchk && l.waiting4deletion))))

-- A request in pages: its first page, the fragment and offset of that, and the count of pages.
abbrev pub first_page : ℕ → ℕ
first_page sctrnum = sctrnum / sce_sctrperpage

abbrev pub last_page : ℕ → ℕ → ℕ
last_page sctrnum nr_sctr = (sctrnum + nr_sctr - 1) % 2 ^ 64 / sce_sctrperpage

abbrev pub page_frag : ℕ → ℕ
page_frag sctrnum = first_page sctrnum / sce_pageperfrag % 2 ^ 32

abbrev pub page_off : ℕ → ℕ
page_off sctrnum = first_page sctrnum % sce_pageperfrag

abbrev pub page_count : ℕ → ℕ → ℕ
page_count sctrnum nr_sctr = (last_page sctrnum nr_sctr + 1 + 2 ^ 64 - first_page sctrnum) % 2 ^ 32

-- The end of a read that misses.
abbrev note_miss : (lun fragnum : ℕ) → Sce → Sce
note_miss lun fragnum s =
    let s' = record s { nr_miss = u32_add s.nr_miss 1 } in misslog_put (lun % 2 ^ 16) fragnum s'

-- The part of `sce_get4read` that runs on a mapped fragment.
unfoldable pub read_loc : (lun sctrnum nr_sctr fdesc : ℕ) → Loc → Cmd (Ret × Option Fmap)
read_loc lun sctrnum nr_sctr fdesc loc = do
  out ← read (λ s. some (fmap_of s loc))
  ret ←
      (if is_valid fdesc
        then frag_isvalid loc (page_off sctrnum) (page_count sctrnum nr_sctr)
        else pure error)
  frag ← load loc
  elim ret [
    | success ↦ do
      store loc (record frag {
        nr_hit = u32_add frag.nr_hit 1;
        nr_service = u16_inc frag.nr_service;
        nr_ref = if ltb frag.nr_ref sce_refceiling then frag.nr_ref + 1 else frag.nr_ref;
      })
      modify_lun lun λ l. record l { nr_service = u32_add l.nr_service 1 }
      modify λ s. record s { nr_hit = u32_add s.nr_hit 1 }
      modify_stats lun λ t. record t { read_hits = u64_add t.read_hits 1 }
      pure (success, out)
    | error ↦ do
      store loc (record frag { nr_miss = u32_add frag.nr_miss 1 })
      modify (note_miss lun (page_frag sctrnum))
      pure (error, out)
  ]

-- `sce_get4read`: its result, and what it writes through `out_fmap`.
unfoldable pub sce_get4read : (lun sctrnum nr_sctr : ℕ) → Cmd (Ret × Option Fmap)
sce_get4read lun sctrnum nr_sctr = do
  l ← read (λ s. s.luntbl lun)
  if not (lock_lun l sctrnum nr_sctr true) then pure (error, none) else do
    modify_stats lun
        λ t. record t { reads = u64_add t.reads 1; read_sctrs = u64_add t.read_sctrs nr_sctr }
    if ltb sce_pageperfrag ((page_off sctrnum + page_count sctrnum nr_sctr) % 2 ^ 32)
        then pure (error, none)
        else do
          fdesc ← load_desc lun (page_frag sctrnum)
          if not (is_mapped fdesc)
              then (do
                modify (set_desc lun (page_frag sctrnum) (fragdesc_inc fdesc))
                modify (note_miss lun (page_frag sctrnum))
                pure (error, none))
              else (do
                found ← read (λ s. pfid2frag s fdesc)
                elim found [ none ↦ λ s. bug | some loc ↦ read_loc lun sctrnum nr_sctr fdesc loc ])

-- The part of `sce_put4read` that runs on the fragment.
unfoldable pub unread_loc : (lun : ℕ) → Loc → Cmd Ret
unread_loc lun loc = do
  frag ← load loc
  l ← read (λ s. s.luntbl lun)
  if frag.nr_service == 0 || l.nr_service == 0 then pure error else do
    store loc (record frag { nr_service = frag.nr_service - 1 })
    modify_lun lun λ l. record l { nr_service = l.nr_service - 1 }
    when (frag.nr_service == 1) (lun_gc lun loc >> pure tt)
    pure success

-- `sce_put4read`
unfoldable pub sce_put4read : (lun sctrnum nr_sctr : ℕ) → Cmd Ret
sce_put4read lun sctrnum nr_sctr = do
  l ← read (λ s. s.luntbl lun)
  let fragnum = sctrnum / sce_sctrperfrag % 2 ^ 32
  if not (lock_lun l sctrnum nr_sctr false)
        || not ((sctrnum + nr_sctr - 1) % 2 ^ 64 / sce_sctrperfrag == fragnum)
      then pure error
      else do
        fdesc ← load_desc lun fragnum
        found ← read (λ s. pfid2frag s fdesc)
        if is_mapped fdesc && is_valid fdesc
            then elim found [ none ↦ pure error | some loc ↦ unread_loc lun loc ]
            else pure error

-- One fragment of `sce_invalidate`: whether it was mapped.
unfoldable pub invalidate_loc : (lun fdesc pgoff pgcnt : ℕ) → Loc → Cmd (Unit {0})
invalidate_loc lun fdesc pgoff pgcnt loc = do
  n ← frag_invalidate loc pgoff pgcnt
  modify_stats lun λ t. record t { valid_sctrs = u64_sub t.valid_sctrs (n * sce_sctrperpage) }
  when (is_valid fdesc) (lun_gc lun loc >> pure tt)

-- The loop of `sce_invalidate`, on fuel: how many fragments it finds mapped. `!frag` breaks the
-- loop with pages left; the assertion behind the loop then prints a message and goes on.
unfoldable pub invalidate_loop : ℕ → (lun fragnum pgoff count wh : ℕ) → Cmd ℕ
invalidate_loop fuel lun fragnum pgoff zero wh = pure wh
invalidate_loop zero lun fragnum pgoff (suc count) wh = λ s. out_of_fuel
invalidate_loop (suc fuel) lun fragnum pgoff (suc count) wh = do
  let pgcnt = min (sce_pageperfrag - pgoff) (suc count)
  fdesc ← load_desc lun fragnum
  found ← read (λ s. pfid2frag s fdesc)
  elim (is_mapped fdesc) [
    | false ↦ invalidate_loop fuel lun (fragnum + 1) 0 (suc count - pgcnt) wh
    | true ↦ elim found [
      | none ↦ pure wh
      | some loc ↦ do
        invalidate_loc lun fdesc pgoff pgcnt loc
        invalidate_loop fuel lun (fragnum + 1) 0 (suc count - pgcnt) (wh + 1)
    ]
  ]

-- `sce_invalidate`; every round takes a page at least off the count.
unfoldable pub sce_invalidate : (lun sctrnum nr_sctr : ℕ) → Cmd Ret
sce_invalidate lun sctrnum nr_sctr = do
  l ← read (λ s. s.luntbl lun)
  if not (lock_lun l sctrnum nr_sctr true) then pure error else do
    modify_stats lun
        λ t. record t { writes = u64_add t.writes 1; write_sctrs = u64_add t.write_sctrs nr_sctr }
    let count = page_count sctrnum nr_sctr
    wh ← invalidate_loop count lun (page_frag sctrnum) (page_off sctrnum) count 0
    when (not (wh == 0)) (modify_stats lun λ t. record t { write_hits = u64_add t.write_hits 1 })
    pure success
