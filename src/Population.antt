-- ===== src/Population.antt =====
-- sce_population.c with SCE_POPULATION_HOTMRU: which fragment to cache, and its life until it is.
pub mod Loop
pub mod Alloc
pub mod Choice
pub mod Finish
use iostash.Prelude.{
  ℕ, zero, suc, ◌+◌, ◌-◌, Bool, true, false, not, ◌&&◌, ◌||◌, Option, none, some, if◌then◌else◌,
  ltb, ◌==◌,
}
use iostash.Word.{
  sce_misswindow, is_mapped, is_valid, fragdesc_data, or_valid, u16_inc, u16_sub, u32_add, u32_sub,
}
use iostash.State.{
  Sce, Lun, Ret, success, error, Run, ok, bug, out_of_fuel, Cmd, pure, when, ◌>>=◌, ◌>>◌, Loc,
  frag_at, load, store, read, modify, modify_lun, set_desc, load_desc,
}
use iostash.Util.{pfid2frag}
use iostash.FreeList.{freefraglist_get, freefraglist_put}
use iostash.Mapping.{in_lun, map_frag, unmap_frag}
use iostash.Eviction.{evict_frag}
use iostash.Lun.Index.{lun_isvalididx}
use iostash.Lun.{lun_gc}
use iostash.Misslog.{misslog_get}

-- What counts as a fragment gotten: `*out_pfid > 0`.
abbrev pub positive : Option ℕ → Option ℕ
positive none = none
positive (some pfid) = if ltb 0 pfid then some pfid else none

-- The loop that gets a free fragment, evicting until there is one, on fuel.
unfoldable pub alloc_loop : ℕ → Cmd (Option ℕ)
alloc_loop zero = λ s. out_of_fuel
alloc_loop (suc k) = do
  got ← freefraglist_get
  elim (positive got) [
    | some pfid ↦ pure (some pfid)
    | none ↦ do
      ret ← evict_frag
      elim ret [
        | error ↦ pure none
        | success ↦ do modify λ s. record s { nr_eviction = u32_add s.nr_eviction 1 }; alloc_loop k
      ]
  ]

-- `*frag` of `_pfid2frag`, which the code does not test.
abbrev pub deref : Option Loc → Cmd Loc
deref none s = bug
deref (some l) s = ok l s

-- `_alloc4population`; none is SCE_ERROR. One eviction gives a free fragment: two rounds.
unfoldable pub alloc4population : (lun fragnum : ℕ) → Cmd (Option ℕ)
alloc4population lun fragnum = do
  l ← read (λ s. s.luntbl lun)
  if not (in_lun l fragnum) then pure none else do
    got ← alloc_loop 2
    elim got [
      | none ↦ pure none
      | some pfid ↦ do
        ret ← map_frag lun fragnum pfid
        elim ret [
          | error ↦ freefraglist_put pfid >> pure none
          | success ↦ do
            modify_lun lun λ l. record l { nr_service = u32_add l.nr_service 1 }
            s ← read (λ s. s)
            loc ← deref (pfid2frag s pfid)
            frag ← load loc
            store loc (record frag { nr_service = u16_inc frag.nr_service })
            pure (some pfid)
        ]
    ]

-- The end of both functions: the LUN is released.
abbrev release : (lun : ℕ) → Loc → Cmd Ret
release lun loc = do
  modify_lun lun λ l. record l { nr_service = u32_sub l.nr_service 1 }
  lun_gc lun loc

-- The part of `_complete_population` that runs on the fragment.
unfoldable pub complete_loc : (lun fragnum fdesc : ℕ) → Loc → Cmd Ret
complete_loc lun fragnum fdesc loc = do
  frag ← load loc
  if is_valid fdesc
      then release lun loc
      else if ltb 0 frag.next || not (frag.nr_service == 1)
      then pure error
      else do
        modify (set_desc lun fragnum (or_valid fdesc))
        store loc (record frag { nr_service = 0 })
        release lun loc

-- `_complete_population`
unfoldable pub complete_population : (lun fragnum : ℕ) → Cmd Ret
complete_population lun fragnum s =
    let l = s.luntbl lun in
    if not (in_lun l fragnum)
    then ok error s
    else if is_mapped (l.fragmap fragnum)
    then elim (pfid2frag s (l.fragmap fragnum)) [
      | none ↦ ok error s
      | some loc ↦ complete_loc lun fragnum (l.fragmap fragnum) loc s
    ]
    else ok error s

-- The part of `_cancel_population` that runs on the fragment.
unfoldable pub cancel_loc : (lun fragnum fdesc : ℕ) → Loc → Cmd Ret
cancel_loc lun fragnum fdesc loc = do
  frag ← load loc
  if is_valid fdesc
      then (if frag.next == 0 then pure error else do
        store loc (record frag { next = 0; nr_service = u16_sub frag.nr_service 1 })
        freefraglist_put frag.next
        release lun loc)
      else (if ltb 0 frag.next || not (frag.nr_service == 1) then pure error else do
        store loc (record frag { nr_service = 0 })
        unmap_frag lun fragnum
        release lun loc)

-- `_cancel_population`
unfoldable pub cancel_population : (lun fragnum : ℕ) → Cmd Ret
cancel_population lun fragnum s =
    let l = s.luntbl lun in
    if not (in_lun l fragnum)
    then ok error s
    else if is_mapped (l.fragmap fragnum)
    then elim (pfid2frag s (l.fragmap fragnum)) [
      | none ↦ ok error s
      | some loc ↦ cancel_loc lun fragnum (l.fragmap fragnum) loc s
    ]
    else ok error s

-- The loop of `_choose4population` from entry `i` of the log on, with `k` entries left, the largest
-- miss count so far and the choice that has it. A read past the end of a LUN's map is a bug.
unfoldable pub choose_loop : (k i maxmiss : ℕ) → (best : Option (ℕ × ℕ)) → Cmd (Option (ℕ × ℕ))
choose_loop zero i maxmiss best s = ok best s
choose_loop (suc k) i maxmiss best s =
    let (ret, out) = misslog_get s i in
    elim ret [
      | error ↦ ok best s
      | success ↦ elim out [
        | none ↦ ok best s
        | some (lunidx, fragnum) ↦ elim (lun_isvalididx s lunidx) [
          | error ↦ choose_loop k (suc i) maxmiss best s
          | success ↦
              (do
                fdesc ← load_desc lunidx fragnum
                let better = not (is_mapped fdesc) && ltb maxmiss (fragdesc_data fdesc)
                choose_loop k (suc i) (if better then fragdesc_data fdesc else maxmiss)
                    (if better then some (lunidx, fragnum) else best))
                s
        ]
      ]
    ]

-- `_choose4population`; none is SCE_ERROR.
unfoldable pub choose4population : Cmd (Option (ℕ × ℕ))
choose4population = choose_loop sce_misswindow 0 0 none
