-- ===== src/Lun.antt =====
-- sce_lun.c: the life of a LUN.
pub mod Index
pub mod Gc
pub mod Drop
use iostash.Prelude.{
  ℕ, zero, suc, ◌+◌, ◌-◌, ◌*◌, ◌/◌, ◌%◌, ◌^◌, Bool, true, false, not, ◌&&◌, Option, none, some,
  if◌then◌else◌, ltb, ◌==◌,
}
use iostash.Word.{
  sce_maxcdev, sce_sctrperfrag, sce_sctrperpage, is_mapped, pfid_dev, fragdesc_data, u32_sub,
  u64_sub,
}
use iostash.State.{
  Sce, Lun, LunStats, Frag, Ret, success, error, Run, ok, bug, out_of_fuel, Cmd, pure, when, ◌>>=◌,
  ◌>>◌, Loc, frag_at, read, modify, modify_lun, modify_stats, set_lun, set_desc,
}
use iostash.Util.{pfid2frag}
use iostash.Mapping.{unmap_frag}

-- What `_lun_destroy` leaves of a LUN.
unfoldable pub lun_destroy : Lun → Lun
lun_destroy l = record l {
  has_scehndl = false;
  has_fragmap = false;
  fragmap = λ _. 0;
  lunctx = 0;
  nr_sctr = 0;
  nr_frag = 0;
  nr_service = 0;
  waiting4deletion = false;
}

abbrev pub no_stats : LunStats
no_stats = record {
  alloc_sctrs = 0;
  valid_sctrs = 0;
  populations = 0;
  reads = 0;
  read_sctrs = 0;
  read_hits = 0;
  writes = 0;
  write_sctrs = 0;
  write_hits = 0;
}

-- `_lun_init`, with whether `vmalloc` gives memory; the map is filled with bytes 0x55.
unfoldable pub lun_init : (mem : Bool) → (nr_sctr : ℕ) → Lun → Ret × Lun
lun_init mem nr_sctr l =
    let l' = record l {
      has_scehndl = true;
      nr_sctr = nr_sctr;
      nr_frag = ((nr_sctr + sce_sctrperfrag - 1) % 2 ^ 64) / sce_sctrperfrag % 2 ^ 32;
    } in
    if mem
    then (success, record l' { has_fragmap = true; fragmap = λ _. 0x55555555; stats = no_stats })
    else (error, record l' { has_fragmap = false })

-- The loop of `_lun_purge` from fragment `fragnum` on, with `k` fragments left.
unfoldable pub purge_loop : (k fragnum lun : ℕ) → Cmd (Unit {0})
purge_loop zero fragnum lun = pure tt
purge_loop (suc k) fragnum lun = unmap_frag lun fragnum >> purge_loop k (suc fragnum) lun

-- `_lun_purge`
unfoldable pub lun_purge : (lun : ℕ) → Cmd Ret
lun_purge lun s =
    let l = s.luntbl lun in
    if l.nr_service == 0 && (l.has_scehndl && not (s.nr_lun == 0))
    then (do
      purge_loop l.nr_frag 0 lun
      modify_lun lun lun_destroy
      modify λ s. record s { nr_lun = u32_sub s.nr_lun 1 }
      pure success)
        s
    else ok error s

-- `_lun_gc`; neither pointer is NULL at its calls.
unfoldable pub lun_gc : (lun : ℕ) → Loc → Cmd Ret
lun_gc lun loc = do
  frag ← read (λ s. frag_at s loc)
  when (frag.nr_service == 0 && frag.nr_valid == 0) (unmap_frag lun frag.fragnum >> pure tt)
  l ← read (λ s. s.luntbl lun)
  when (l.waiting4deletion && l.nr_service == 0) (lun_purge lun >> pure tt)
  pure success

-- What `_lun_rmcdev` does with the descriptor of one fragment.
unfoldable pub drop_desc : (lun devnum fragnum : ℕ) → Sce → Sce
drop_desc lun devnum fragnum s =
    let fdesc = (s.luntbl lun).fragmap fragnum in
    if is_mapped fdesc && pfid_dev fdesc == devnum
    then elim (pfid2frag s fdesc) [
      | none ↦ s
      | some loc ↦
          let s' = set_desc lun fragnum (fragdesc_data (frag_at s loc).nr_miss) s in
          let l = s'.luntbl lun in
          set_lun lun
            (record l {
              stats = record (l.stats) {
                alloc_sctrs = u64_sub l.stats.alloc_sctrs 1;
                valid_sctrs =
                    u64_sub l.stats.valid_sctrs ((frag_at s loc).nr_valid * sce_sctrperpage);
              };
            })
            s'
    ]
    else s

-- The loop of `_lun_rmcdev` from fragment `fragnum` on, with `k` fragments left.
unfoldable pub rmcdev_from : (k fragnum lun devnum : ℕ) → Sce → Sce
rmcdev_from zero fragnum lun devnum s = s
rmcdev_from (suc k) fragnum lun devnum s =
    rmcdev_from k (suc fragnum) lun devnum (drop_desc lun devnum fragnum s)

-- `_lun_rmcdev`
unfoldable pub lun_rmcdev : (lun devnum : ℕ) → Sce → Ret × Sce
lun_rmcdev lun devnum s =
    if (s.luntbl lun).has_fragmap && ltb devnum sce_maxcdev
    then (success, rmcdev_from (s.luntbl lun).nr_frag 0 lun devnum s)
    else (error, s)
