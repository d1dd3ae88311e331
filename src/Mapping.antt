-- ===== src/Mapping.antt =====
-- sce_mapping.c: the descriptor of a LUN's fragment and the fragment it is mapped to.
pub mod Laws
pub mod Total
use iostash.Prelude.{
  ℕ, ◌+◌, ◌-◌, ◌*◌, ◌/◌, ◌%◌, ◌^◌, Bool, true, false, not, ◌&&◌, Option, none, some, if◌then◌else◌,
  ltb, ◌==◌,
}
use iostash.Word.{
  sce_pageperfrag, sce_sctrperfrag, sce_sctrperpage, is_mapped, fragdesc_data, u32_sub,
}
use iostash.State.{
  Sce, Lun, Ret, success, error, Run, ok, bug, out_of_fuel, Cmd, pure, ◌>>=◌, ◌>>◌, Loc, frag_at,
  set_frag, load, store, read, modify, set_desc,
}
use iostash.Util.{pfid2frag, isvalidpfid}
use iostash.Fragment.{frag_init, frag_invalidate}
use iostash.FreeList.{freefraglist_put}

-- The checks at the head of the functions on `(lun, fragnum)`.
abbrev pub in_lun : Lun → ℕ → Bool
in_lun l fragnum = l.has_fragmap && (ltb fragnum l.nr_frag && l.has_scehndl)

-- The pages of the last fragment that lie past the LUN's end: none, or where they start and how
-- many they are. `lun->nr_frag * SCE_SCTRPERFRAG` is 32-bit arithmetic.
abbrev pub tail_pages : Lun → ℕ → Option (ℕ × ℕ)
tail_pages l fragnum =
    let nr_sctr = (l.nr_frag * sce_sctrperfrag) % 2 ^ 32 in
    let pagecnt = ((nr_sctr - l.nr_sctr + sce_sctrperpage - 1) % 2 ^ 32) / sce_sctrperpage in
    if (fragnum == u32_sub l.nr_frag 1) && ltb l.nr_sctr nr_sctr
    then some (u32_sub sce_pageperfrag pagecnt, pagecnt)
    else none

abbrev pub invalidate_tail : Loc → Option (ℕ × ℕ) → Cmd (Unit {0})
invalidate_tail l none = pure tt
invalidate_tail l (some (pagenum, pagecnt)) = do frag_invalidate l pagenum pagecnt; pure tt

-- The part of `_map_frag` that runs on the fragment.
unfoldable pub map_loc : (lun fragnum pfid : ℕ) → Loc → Cmd Ret
map_loc lun fragnum pfid loc = do
  frag_init loc
  l ← read (λ s. s.luntbl lun)
  invalidate_tail loc (tail_pages l fragnum)
  frag ← load loc
  store loc (record frag { lunidx = lun % 2 ^ 16; fragnum = fragnum })
  modify (set_desc lun fragnum (2 ^ 31 + fragdesc_data pfid))
  pure success

-- `_map_frag`
unfoldable pub map_frag : (lun fragnum pfid : ℕ) → Cmd Ret
map_frag lun fragnum pfid s =
    let l = s.luntbl lun in
    if not (in_lun l fragnum) then ok error s else elim (isvalidpfid s pfid) [
      | error ↦ ok error s
      | success ↦ if is_mapped (l.fragmap fragnum) then ok error s else elim (pfid2frag s pfid) [
        | none ↦ ok error s
        | some loc ↦ map_loc lun fragnum pfid loc s
      ]
    ]

-- The part of `_unmap_frag` that runs on the fragment.
unfoldable pub unmap_loc : (lun fragnum fdesc : ℕ) → Loc → Cmd Ret
unmap_loc lun fragnum fdesc loc = do
  frag ← load loc
  if ltb 0 frag.nr_service then pure error else do
    ret ← freefraglist_put fdesc
    elim ret [
      | error ↦ pure error
      | success ↦ do modify (set_desc lun fragnum (fragdesc_data frag.nr_miss)); pure success
    ]

-- `_unmap_frag`
unfoldable pub unmap_frag : (lun fragnum : ℕ) → Cmd Ret
unmap_frag lun fragnum s =
    let l = s.luntbl lun in
    if not (in_lun l fragnum)
    then ok error s
    else if is_mapped (l.fragmap fragnum)
    then elim (pfid2frag s (l.fragmap fragnum)) [
      | none ↦ ok error s
      | some loc ↦ unmap_loc lun fragnum (l.fragmap fragnum) loc s
    ]
    else ok error s
