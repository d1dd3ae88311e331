-- ===== src/Tests/Calls.antt =====
-- The theorems on the calls of the engine, and on the devices of the module, at concrete states.
use iostash.Prelude.{
  ℕ, ◌+◌, ◌-◌, ◌/◌, ◌≤◌, ◌<◌, ◌≡◌, true, arith, refl, Option, some, List, [], ◌∷◌,
}
use iostash.Invariant.Frame.{Inv-set_lun}
use iostash.State.{Sce, Lun, set_lun, Ret, success, error, ok, Loc}
use iostash.Util.{Fmap}
use iostash.Invariant.{Inv}
use iostash.Invariant.Ages.{Dirty}
use iostash.Mapping.Total.{Kept}
use iostash.Interface.Config.{sce_create, sce_addcdev}
use iostash.Interface.Config.Added.{sce_addcdev-Inv}
use iostash.Interface.Runs.{addcdev, rmcdev, addlun, get4read, invalidate, run_calls, run_calls-Inv}
use iostash.Interface.Io.{sce_get4read, sce_put4read, sce_invalidate}
use iostash.Interface.Io.Pages.{Request}
use iostash.Interface.Io.Write.{sce_invalidate-Dirty}
use iostash.Interface.Io.Read.{ReadEnd, sce_get4read-ReadEnd}
use iostash.Interface.Io.Stale.{sce_get4read-sce_invalidate}
use iostash.Interface.Io.Done.{Held, Ends, sce_put4read-Ends}
use iostash.Host.Pop.{pop_read_sector, pop_write_sector, clone_sector}
use iostash.Host.Pop.Places.{clone_sector-copy}
use iostash.Tests.Device.{
  here, free_state, used_state, free_state-Inv, used_state-Inv, valid_state, valid_state-Inv,
}

one_page : Request 0 8
one_page = record { no_wrap = omega arith; width = omega arith }

run_calls-Inv_example :
    (s : Sce) × (s' : Sce) × (ls' : List Loc) × (sce_create true ≡ some s)
    × (run_calls
          (addcdev true 4096 7
            ∷ addlun true 2048 9
            ∷ get4read 0 0 8
            ∷ invalidate 0 0 8
            ∷ rmcdev 0
            ∷ [])
          s
        ≡ ok tt s')
    × Inv s' ls'
run_calls-Inv_example =
    run_calls-Inv
      (addcdev true 4096 7 ∷ addlun true 2048 9 ∷ get4read 0 0 8 ∷ invalidate 0 0 8 ∷ rmcdev 0 ∷ [])
      (
        omega arith,
        (omega arith, ((omega arith, one_page), ((omega arith, one_page), (omega arith, tt)))),
      )

sce_get4read-sce_invalidate_example :
    (s' : Sce) × (out : Option Fmap) × (s'' : Sce) × (sce_invalidate 0 0 8 (used_state 0)
      ≡ ok success s')
    × (sce_get4read 0 0 8 s' ≡ ok (error, out) s'')
sce_get4read-sce_invalidate_example =
    sce_get4read-sce_invalidate (used_state 0) [] 0 0 8 0 8 3 (used_state-Inv 0) (omega arith)
      one_page refl one_page (omega arith, omega arith) (omega arith, omega arith)

sce_invalidate-Dirty_example :
    (s' : Sce) × (ls' : List Loc) × (sce_invalidate 0 0 8 (used_state 0) ≡ ok success s')
    × Kept (used_state 0) s' ls'
    × ((x : ℕ) → 0 ≤ x → x < 8 → Dirty s' 0 (x / 8))
sce_invalidate-Dirty_example =
    sce_invalidate-Dirty (used_state 0) [] 0 0 8 (used_state-Inv 0) (omega arith) one_page refl

sce_get4read-ReadEnd_example :
    (out : Ret × Option Fmap) × (s' : Sce) × (sce_get4read 0 0 8 (used_state 0) ≡ ok out s')
    × Inv s' []
    × ReadEnd (used_state 0) 0 0 8 out s'
sce_get4read-ReadEnd_example =
    sce_get4read-ReadEnd (used_state 0) [] 0 0 8 (used_state-Inv 0) (omega arith) one_page

-- the fragment and the LUN with one request
abbrev busy_lun : Lun
busy_lun = record ((valid_state 1).luntbl 0) { nr_service = 1 }

abbrev serving_state : Sce
serving_state = set_lun 0 busy_lun (valid_state 1)

serving_state-Inv : Inv serving_state []
serving_state-Inv = Inv-set_lun (valid_state 1) (valid_state-Inv 1) 0 busy_lun (record {
  fragmap = refl;
  has_fragmap = refl;
  has_scehndl = refl;
  nr_frag = refl;
  nr_sctr = refl;
})

serving_state-Held : Held serving_state 0 0 8 here
serving_state-Held = record {
  locked = refl;
  one = refl;
  mapped = refl;
  valid = refl;
  found = refl;
  frag_held = refl;
  lun_held = refl;
}

sce_put4read-Ends_example :
    (ret : Ret) × (s' : Sce) × (sce_put4read 0 0 8 serving_state ≡ ok ret s')
    × Ends serving_state 0 0 8 ret s'
sce_put4read-Ends_example =
    sce_put4read-Ends serving_state [] 0 0 8 serving_state-Inv (omega arith) one_page

sce_addcdev-Inv_example :
    (out : Option ℕ) × (s' : Sce) × (ls' : List Loc) × (sce_addcdev true 8192 11 free_state
      ≡ ok out s')
    × Inv s' ls'
    × ((i : ℕ) → out ≡ some i → i < 16)
sce_addcdev-Inv_example =
    sce_addcdev-Inv free_state (here ∷ []) true 8192 11 free_state-Inv (omega arith)

clone_sector-copy_example : clone_sector 3 10250 ≡ pop_write_sector 3 + (10250 - pop_read_sector 5)
clone_sector-copy_example =
    clone_sector-copy 5 3 10250 (omega arith) (omega arith) (omega arith) (omega arith)
