-- ===== src/Tests.antt =====
-- Runs of the whole engine on small devices.
mod Device
mod Witnesses
mod Calls
mod Requests
mod Loading
mod Removal
use iostash.Prelude.{
  ℕ, ◌+◌, ◌*◌, ◌^◌, ◌≡◌, refl, Bool, true, false, Option, none, some, ◌==◌, if◌then◌else◌,
}
use iostash.State.{
  Sce, Ret, success, error, Run, ok, bug, out_of_fuel, Cmd, pure, ◌>>=◌, ◌>>◌, read, and_then,
}
use iostash.Util.{Fmap}
use iostash.Fragment.{
  nonzero, frag_init, set_bits, set_words, set_bitmap, reset_bits, reset_words, reset_bitmap,
  check_words, check_bitmap, frag_invalidate, frag_isvalid,
}
use iostash.FreeList.{
  put_frag, freefraglist_put, take_frag, freefraglist_get, unlink, rmcdev_loop, freefraglist_rmcdev,
}
use iostash.Mapping.{map_loc, map_frag, unmap_loc, unmap_frag}
use iostash.Misslog.{misslog_put, misslog_get, gc_from, misslog_gc}
use iostash.Eviction.{advance_clockarm, evict_loop, evict_frag}
use iostash.Lun.Index.{search_from, lun_search}
use iostash.Lun.{
  lun_destroy, lun_init, purge_loop, lun_purge, lun_gc, drop_desc, rmcdev_from, lun_rmcdev,
}
use iostash.Cdev.{cdev_search, cdev_destroy, cdev_init}
use iostash.Population.{
  alloc_loop, alloc4population, complete_loc, complete_population, cancel_loc, cancel_population,
  choose_loop, choose4population,
}
use iostash.Interface.Config.{
  sce_create, first_unused, put_all, add_at, add_device, sce_addcdev, rmcdev_luns, sce_rmcdev,
  sce_addlun, sce_rmlun,
}
use iostash.Interface.Io.{
  read_loc, sce_get4read, unread_loc, sce_put4read, invalidate_loc, invalidate_loop, sce_invalidate,
}
use iostash.Interface.Task.{Poptask, sce_get4pop, sce_put4pop}

-- everything that a run computes with
engine : ℕ
unfolding nonzero frag_init set_bits set_words set_bitmap check_words check_bitmap frag_invalidate
    frag_isvalid put_frag freefraglist_put take_frag freefraglist_get unlink rmcdev_loop
    freefraglist_rmcdev map_loc map_frag unmap_loc unmap_frag misslog_put misslog_get
    advance_clockarm evict_loop evict_frag search_from lun_search lun_destroy lun_init purge_loop
    lun_purge lun_gc drop_desc rmcdev_from lun_rmcdev cdev_search cdev_destroy cdev_init alloc_loop
    alloc4population complete_loc complete_population cancel_loc cancel_population choose_loop
    choose4population sce_create first_unused put_all add_at add_device sce_addcdev rmcdev_luns
    sce_rmcdev sce_addlun sce_rmlun read_loc sce_get4read unread_loc sce_put4read invalidate_loc
    invalidate_loop sce_invalidate sce_get4pop sce_put4pop
engine = 0

abbrev run_from : {A : Type 0} → Option Sce → Cmd A → Option A
run_from none c = none
run_from (some s) c = elim (c s) [ ok a s' ↦ some a | _ ↦ none ]

-- one cache device of three fragments, one LUN of two
setup : Cmd (Unit {0})
unfolding engine
setup = do sce_addcdev true (3 * 2048) 7; sce_addlun true 4096 9; pure tt

-- A miss, the population of the fragment, and a hit; then a write, and a miss again.
story : Cmd (Ret × (Option Poptask) × Ret × Ret × Ret × Ret)
unfolding setup
story = do
  setup
  (first, _) ← sce_get4read 0 2048 8
  task ← sce_get4pop
  elim task [
    | none ↦ pure (first, none, error, error, error, error)
    | some t ↦ do
      done ← sce_put4pop t false
      (hit, _) ← sce_get4read 0 2048 8
      sce_put4read 0 2048 8
      wrote ← sce_invalidate 0 2050 1
      (again, _) ← sce_get4read 0 2048 8
      pure (first, some t, done, hit, wrote, again)
  ]

story_runs :
    run_from (sce_create true) story
    ≡ some (
      error,
      some (record { lunctx = 9; cdevctx = 7; lun_fragnum = 1; cdev_fragnum = 0 }),
      success,
      success,
      success,
      error,
    )
unfolding story engine
story_runs = refl
