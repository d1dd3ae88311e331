-- ===== src/Interface/Config.antt =====
-- sce_interface.c: creation and destruction, cache devices and LUNs.
pub mod Luns
pub mod Loading
pub mod Devices
pub mod Added
pub mod Dropping
pub mod Removed
use iostash.Prelude.{
  ℕ, zero, suc, Bool, true, false, not, ◌||◌, Option, none, some, if◌then◌else◌, ltb, leb, ◌==◌,
  update,
}
use iostash.Word.{sce_maxcdev, sce_maxlun, pfid, u32_add, u32_sub}
use iostash.State.{
  Sce, Cdev, Lun, Ret, success, error, ok, Cmd, pure, ◌>>◌, bug_on, modify, set_lun,
}
use iostash.FreeList.{freefraglist_put, freefraglist_rmcdev}
use iostash.Lun.{lun_destroy, lun_init, lun_purge, lun_rmcdev, no_stats}
use iostash.Cdev.{no_cdev, cdev_search, cdev_init, cdev_destroy}

-- a `lun_t` of bytes 0
abbrev pub no_lun : Lun
no_lun = record {
  has_scehndl = false;
  has_fragmap = false;
  fragmap = λ _. 0;
  lunctx = 0;
  nr_sctr = 0;
  nr_frag = 0;
  nr_service = 0;
  waiting4deletion = false;
  stats = no_stats;
}

-- `sce_create`, with whether `kmalloc` gives memory.
unfoldable pub sce_create : (mem : Bool) → Option Sce
sce_create false = none
sce_create true = some (record {
  nr_cdev = 0;
  cdevtbl = λ _. no_cdev;
  nr_lun = 0;
  luntbl = λ _. no_lun;
  nr_frag = 0;
  nr_freefrag = 0;
  freefraglist = 0;
  nr_hit = 0;
  nr_miss = 0;
  nr_eviction = 0;
  arm = 0;
  misslog_fragnum = λ _. 0;
  misslog_lunidx = λ _. 0;
  misslog_head = 0;
  misslog_size = 0;
})

-- The first index from `i` on that is not in use, with `k` indices left.
unfoldable pub first_unused : (k i : ℕ) → (used : ℕ → Bool) → Option ℕ
first_unused zero i used = none
first_unused (suc k) i used = elim (used i) [ true ↦ first_unused k (suc i) used | false ↦ some i ]

-- The `do` loop of `sce_addcdev`: fragments `n - 1` down to 0 go to the free list.
unfoldable pub put_all : (devnum n : ℕ) → Cmd (Unit {0})
put_all devnum zero = pure tt
put_all devnum (suc n) = freefraglist_put (pfid devnum n) >> put_all devnum n

-- What `sce_addcdev` does with the result of `_cdev_init`.
unfoldable pub add_device : (cdctx devnum : ℕ) → Ret × Cdev → Cmd (Option ℕ)
add_device cdctx devnum (error, c) s = ok none (record s { cdevtbl = update s.cdevtbl devnum c })
add_device cdctx devnum (success, c) s =
    (do
      modify λ s. record s {
        cdevtbl = update s.cdevtbl devnum (record c { cdevctx = cdctx });
        nr_cdev = u32_add s.nr_cdev 1;
        nr_frag = u32_add s.nr_frag c.nr_frag;
      }
      put_all devnum c.nr_frag
      pure (some devnum))
      s

-- The part of `sce_addcdev` that runs on a free slot.
unfoldable pub add_at : (mem : Bool) → (nr_sctr cdctx devnum : ℕ) → Cmd (Option ℕ)
add_at mem nr_sctr cdctx devnum s =
    add_device cdctx devnum (cdev_init mem nr_sctr (s.cdevtbl devnum)) s

-- `sce_addcdev`: the device's index, or none for NULL.
unfoldable pub sce_addcdev : (mem : Bool) → (nr_sctr cdctx : ℕ) → Cmd (Option ℕ)
sce_addcdev mem nr_sctr cdctx s =
    if nr_sctr == 0 || leb sce_maxcdev s.nr_cdev then ok none s else elim (cdev_search s cdctx) [
      | some _ ↦ ok none s
      | none ↦ elim (first_unused sce_maxcdev 0 (λ i. (s.cdevtbl i).has_fragtbl)) [
        | none ↦ ok none s
        | some devnum ↦ add_at mem nr_sctr cdctx devnum s
      ]
    ]

-- The loop of `sce_rmcdev` over the LUNs from `i` on, with `k` LUNs left.
unfoldable pub rmcdev_luns : (k i devnum : ℕ) → Sce → Sce
rmcdev_luns zero i devnum s = s
rmcdev_luns (suc k) i devnum s =
    rmcdev_luns k (suc i) devnum (if (s.luntbl i).has_fragmap then (lun_rmcdev i devnum s).1 else s)

-- `sce_rmcdev` of the device with an index below SCE_MAXCDEV.
unfoldable pub sce_rmcdev : (devnum : ℕ) → Cmd Ret
sce_rmcdev devnum s =
    if not (s.cdevtbl devnum).has_scehndl
    then ok error s
    else (do
      bug_on (leb sce_maxcdev devnum)
      freefraglist_rmcdev devnum
      modify (rmcdev_luns sce_maxlun 0 devnum)
      modify λ s. record s {
        nr_cdev = u32_sub s.nr_cdev 1;
        nr_frag = u32_sub s.nr_frag (s.cdevtbl devnum).nr_frag;
        cdevtbl = update s.cdevtbl devnum (cdev_destroy (s.cdevtbl devnum));
      }
      pure success)
        s

-- `sce_addlun`: the LUN's index, or none for NULL.
unfoldable pub sce_addlun : (mem : Bool) → (nr_sctr lunctx : ℕ) → Cmd (Option ℕ)
sce_addlun mem nr_sctr lunctx s =
    if nr_sctr == 0
    then ok none s
    else elim (first_unused sce_maxlun 0 (λ i. (s.luntbl i).has_fragmap)) [
      | none ↦ ok none s
      | some i ↦
          let (ret, l) = lun_init mem nr_sctr (s.luntbl i) in
          elim ret [
            | error ↦ ok none (set_lun i l s)
            | success ↦ ok (some i) (record (set_lun i (record l { lunctx = lunctx }) s) {
              nr_lun = u32_add s.nr_lun 1;
            })
          ]
    ]

-- `sce_rmlun`
unfoldable pub sce_rmlun : (lun : ℕ) → Cmd Ret
sce_rmlun lun s =
    let l = s.luntbl lun in
    if not l.has_scehndl
    then ok error s
    else if not l.has_fragmap
    then ok error s
    else if ltb 0 l.nr_service
    then ok success (set_lun lun (record l { waiting4deletion = true }) s)
    else lun_purge lun s

-- `sce_destroy`: the tables as they are when the memory is given back.
unfoldable pub sce_destroy : Sce → Sce
sce_destroy s = record s {
  cdevtbl = λ i. if ltb i sce_maxcdev then cdev_destroy (s.cdevtbl i) else s.cdevtbl i;
  luntbl = λ i. if ltb i sce_maxlun then lun_destroy (s.luntbl i) else s.luntbl i;
}
