-- ===== src/Eviction.antt =====
-- sce_eviction.c: the CLOCK algorithm with a reference counter.
pub mod Laws
use iostash.Prelude.{
  ℕ, zero, suc, ◌+◌, ◌^◌, ◌-◌, ◌*◌, ◌%◌, Bool, true, false, ◌&&◌, Option, none, some, if◌then◌else◌,
  ltb, leb, ◌==◌,
}
use iostash.Word.{sce_refceiling, fragnum_free, pfid_dev, pfid_off, pfid}
use iostash.State.{
  Sce, Cdev, Ret, success, error, Run, ok, bug, out_of_fuel, Cmd, pure, when, ◌>>=◌, ◌>>◌, Loc, at,
  frag_at, load, store,
}
use iostash.Mapping.{unmap_frag}

-- The arm behind the fragment `fragnum` of device `devnum`, which has `nr_frag` fragments.
abbrev pub next_arm : (devnum fragnum nr_frag : ℕ) → ℕ
next_arm devnum fragnum nr_frag =
    if leb nr_frag (fragnum + 1) then pfid (devnum + 1) 0 else pfid devnum (fragnum + 1)

-- `_get_frag_advance_clockarm`
unfoldable pub advance_clockarm : Sce → Option Loc × Sce
advance_clockarm s =
    if s.nr_cdev == 0
    then (none, s)
    else let devnum = pfid_dev s.arm % s.nr_cdev in
      let nr_frag = (s.cdevtbl devnum).nr_frag in
      if nr_frag == 0
      then (none, record s { arm = pfid (devnum + 1) (pfid_off s.arm) })
      else let fragnum = pfid_off s.arm % nr_frag in
        (some (at devnum fragnum), record s { arm = next_arm devnum fragnum nr_frag })

-- The loop of `_evict_frag`, with `i` rounds left.
unfoldable pub evict_loop : (i : ℕ) → Cmd Ret
evict_loop zero s = ok error s
evict_loop (suc i) s =
    let (found, s') = advance_clockarm s in
    elim found [
      | none ↦ ok error s'
      | some loc ↦
          let frag = frag_at s' loc in
          let idle = ltb frag.fragnum fragnum_free && frag.nr_service == 0 in
          elim (idle && frag.nr_ref == 0) [
            | true ↦ (unmap_frag frag.lunidx frag.fragnum >> pure success) s'
            | false ↦
                (do when idle (store loc (record frag { nr_ref = frag.nr_ref - 1 })); evict_loop i)
                  s'
          ]
    ]

-- The rounds of the loop, `sce->nr_frag * SCE_REFCEILING` as an `int`: none if it is negative.
abbrev pub evict_rounds : ℕ → ℕ
evict_rounds nr_frag =
    let n = (nr_frag * sce_refceiling) % 2 ^ 32 in if ltb n (2 ^ 31) then n else 0

-- `_evict_frag`
unfoldable pub evict_frag : Cmd Ret
evict_frag s =
    if ltb s.nr_freefrag s.nr_frag then evict_loop (evict_rounds s.nr_frag) s else ok error s
