-- ===== src/FreeList.antt =====
-- sce_freefraglist.c without SCE_AWT: the list of free fragments, linked through `next`.
pub mod Stack
pub mod Remove
use iostash.Prelude.{
  ℕ, zero, suc, ◌+◌, ◌%◌, ◌^◌, Bool, true, false, ◌&&◌, Option, none, some, if◌then◌else◌, ltb,
  ◌==◌,
}
use iostash.Word.{
  sce_maxcdev, fragnum_withinfreelist, fragnum_free, or_mapped, u32_add, u32_sub, pfid_dev,
}
use iostash.State.{
  Sce, Ret, success, error, Run, ok, bug, out_of_fuel, Cmd, bug_on, pure, ◌>>=◌, ◌>>◌, Loc, frag_at,
  set_frag, load, store, read, modify,
}
use iostash.Util.{pfid2frag}

-- The part of `_freefraglist_put` that runs on a fragment.
unfoldable pub put_frag : (pfid : ℕ) → Loc → Cmd Ret
put_frag pfid l = do
  frag ← load l
  if frag.fragnum == fragnum_withinfreelist then pure error else do
    head ← read (λ s. s.freefraglist)
    store l (record frag { fragnum = fragnum_withinfreelist; next = head })
    modify λ s. record s { freefraglist = or_mapped pfid; nr_freefrag = u32_add s.nr_freefrag 1 }
    s ← read (λ s. s)
    bug_on (ltb s.nr_frag s.nr_freefrag)
    pure success

-- `_freefraglist_put`
unfoldable pub freefraglist_put : (pfid : ℕ) → Cmd Ret
freefraglist_put pfid s = elim (pfid2frag s pfid) [ none ↦ ok error s | some l ↦ put_frag pfid l s ]

-- The part of `_freefraglist_get` that runs on the first fragment.
unfoldable pub take_frag : (pfid : ℕ) → Loc → Cmd (Option ℕ)
take_frag pfid l = do
  frag ← load l
  modify λ s. record s { freefraglist = frag.next }
  store l (record frag { next = 0; fragnum = fragnum_free })
  s ← read (λ s. s)
  bug_on (s.nr_freefrag == 0)
  modify λ s. record s { nr_freefrag = u32_sub s.nr_freefrag 1 }
  pure (some pfid)

-- `_freefraglist_get`: the id through `out_pfid`, or none for SCE_ERROR.
unfoldable pub freefraglist_get : Cmd (Option ℕ)
freefraglist_get s =
    if s.freefraglist == 0
    then ok none s
    else elim (pfid2frag s s.freefraglist) [ none ↦ bug | some l ↦ take_frag s.freefraglist l s ]

-- Take the list's element after `parent`, or its first one, out of the list.
unfoldable pub unlink : (parent : Option Loc) → (next : ℕ) → Sce → Sce
unlink none next s = record s { freefraglist = next; nr_freefrag = u32_sub s.nr_freefrag 1 }
unlink (some p) next s =
    let s' = set_frag p (record (frag_at s p) { next = next }) s in
    record s' { nr_freefrag = u32_sub s'.nr_freefrag 1 }

-- The loop of `_freefraglist_rmcdev`, on fuel.
unfoldable pub rmcdev_loop : ℕ → (devnum : ℕ) → (parent : Option Loc) → (pfid : ℕ) → Cmd (Unit {0})
rmcdev_loop zero devnum parent pfid s = out_of_fuel
rmcdev_loop (suc k) devnum parent pfid s = elim (pfid == 0) [
  | true ↦ ok tt s
  | false ↦ elim (pfid2frag s pfid) [
    | none ↦ bug
    | some child ↦
        let next = (frag_at s child).next in
        let here = pfid_dev pfid == devnum in
        rmcdev_loop k devnum (if here then parent else some child) next
          (if here then unlink parent next s else s)
  ]
]

-- `_freefraglist_rmcdev`: the list has `nr_freefrag` elements.
unfoldable pub freefraglist_rmcdev : (devnum : ℕ) → Cmd Ret
freefraglist_rmcdev devnum s =
    if ltb devnum sce_maxcdev
    then (rmcdev_loop (suc s.nr_freefrag) devnum none s.freefraglist >> pure success) s
    else ok error s
