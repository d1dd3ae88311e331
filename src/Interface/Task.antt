-- ===== src/Interface/Task.antt =====
-- sce_interface.c: the status, and the population tasks that the daemon takes and gives back.
pub mod Get
use iostash.Prelude.{ℕ, Bool, true, false, Option, none, some}
use iostash.Word.{sce_sctrperfrag, pfid_dev, pfid_off, u64_add}
use iostash.State.{Sce, Ret, error, Cmd, pure, ◌>>=◌, ◌>>◌, read, modify_stats}
use iostash.Pdm.{Status}
use iostash.Lun.Index.{lun_search}
use iostash.Population.{alloc4population, complete_population, cancel_population, choose4population}

-- `sce_get_status`
unfoldable pub sce_get_status : Sce → Status
sce_get_status s = record {
  nr_hit = s.nr_hit;
  nr_miss = s.nr_miss;
  nr_freefrag = s.nr_freefrag;
  nr_totfrag = s.nr_frag;
  nr_eviction = s.nr_eviction;
}

-- `sce_poptask_t`
pub record Poptask : Type 0 where
  pub lunctx : ℕ
  pub cdevctx : ℕ
  pub lun_fragnum : ℕ
  pub cdev_fragnum : ℕ

-- `sce_get4pop`; none is SCE_ERROR.
unfoldable pub sce_get4pop : Cmd (Option Poptask)
sce_get4pop = do
  choice ← choose4population
  elim choice [
    | none ↦ pure none
    | some (lunidx, fragnum) ↦ do
      got ← alloc4population lunidx fragnum
      elim got [
        | none ↦ pure none
        | some pf ↦ read λ s. some (record {
          lunctx = (s.luntbl lunidx).lunctx;
          cdevctx = (s.cdevtbl (pfid_dev pf)).cdevctx;
          lun_fragnum = fragnum;
          cdev_fragnum = pfid_off pf;
        })
      ]
  ]

-- `sce_put4pop`
unfoldable pub sce_put4pop : Poptask → (failed : Bool) → Cmd Ret
sce_put4pop task failed = do
  found ← read (λ s. lun_search s task.lunctx)
  elim found [
    | none ↦ pure error
    | some lun ↦ elim failed [
      | true ↦ cancel_population lun task.lun_fragnum
      | false ↦ do
        ret ← complete_population lun task.lun_fragnum
        modify_stats lun λ t. record t {
          populations = u64_add t.populations 1;
          alloc_sctrs = u64_add t.alloc_sctrs 1;
          valid_sctrs = u64_add t.valid_sctrs sce_sctrperfrag;
        }
        pure ret
    ]
  ]
