-- ===== src/Tests/Loading.antt =====
-- The theorems on the module's files, its loading, and the daemon's threads, at concrete inputs.
use iostash.Prelude.{
  ℕ, ◌<◌, ◌≡◌, refl, Bool, true, false, arith, none, some, List, [], ◌∷◌, sym, ◌∙◌,
}
use iostash.Control.{cmd_add, cmd_rm, after, strip, is_blank}
use iostash.Control.Text.{Occurs, AllBlank, NoBlank, IsTail, after-Occurs}
use iostash.Control.Store.{
  line_of, line_with, Registers, Unregisters, store-add, store-rm, store-Occurs,
}
use iostash.Control.Lifecycle.{Answers, ctl_kobj, pdm, iostash_init, module_life}
use iostash.Control.Lifecycle.Balance.{
  times_made, times_released, module_life-Balanced, module_life-ctl_kobj,
}
use iostash.Pdm.Threads.{
  err_thread, a_thread, Thread, any_err, pdm_create, pdm_destroy, AllRun, NoneRuns, NoNull,
  pdm_create-NoNull,
}
use iostash.Host.Ssd.{SsdProbe}
use iostash.Host.Hdd.{HddProbe}
use iostash.Tests.Device.{free_state}
use iostash.Tests.Requests.{identity, host, new_probe, disk_probe}

-- a path leads to the device whose number is the path's first byte
abbrev ssds : List ℕ → SsdProbe
ssds [] = record new_probe { lookup = none }
ssds (c ∷ cs) = record new_probe { lookup = some c }

abbrev disks : List ℕ → HddProbe
disks [] = record disk_probe { lookup = none }
disks (c ∷ cs) = record disk_probe { lookup = some c }

abbrev whole : List ℕ → ℕ
whole path = 2

-- one blank, and a line's end
blank : AllBlank (32 ∷ [])
unfolding AllBlank is_blank
blank = (refl, tt)

line_end : IsTail (10 ∷ [])
unfolding IsTail is_blank
line_end = refl

-- "/d"
path-NoBlank : NoBlank (47 ∷ 100 ∷ [])
unfolding NoBlank is_blank
path-NoBlank = (refl, (refl, tt))

store-add_example :
    Registers identity ssds disks whole
      (host free_state)
      (line_of cmd_add (32 ∷ []) 47 (100 ∷ []) (10 ∷ []))
      (47 ∷ 100 ∷ [])
store-add_example =
    store-add identity ssds disks whole (host free_state) (32 ∷ []) (100 ∷ []) (10 ∷ []) 47 blank
      path-NoBlank line_end

not_found : after cmd_add (line_of cmd_rm (32 ∷ []) 47 (100 ∷ []) (10 ∷ [])) ≡ none
unfolding after strip
not_found = refl

never_found : {rest : List ℕ} → none ≡ some rest → ⊥
never_found h = ground arith

no_add : ¬ Occurs cmd_add (line_of cmd_rm (32 ∷ []) 47 (100 ∷ []) (10 ∷ []))
no_add o = let (rest, e) = (after-Occurs cmd_add _).1 o in never_found (sym not_found ∙ e)

store-rm_example :
    Unregisters identity ssds disks whole
      (host free_state)
      (line_of cmd_rm (32 ∷ []) 47 (100 ∷ []) (10 ∷ []))
      (47 ∷ 100 ∷ [])
store-rm_example =
    store-rm identity ssds disks whole (host free_state) (32 ∷ []) (100 ∷ []) (10 ∷ []) 47 blank
      path-NoBlank line_end no_add

-- "rm add b"
abbrev rm_added : List ℕ
rm_added = 114 ∷ 109 ∷ 32 ∷ 97 ∷ 100 ∷ 100 ∷ 32 ∷ 98 ∷ []

add_inside : Occurs cmd_add rm_added
unfolding Occurs
add_inside = (114 ∷ 109 ∷ 32 ∷ [], 32 ∷ 98 ∷ [], refl)

store-Occurs_example :
    (pre : List ℕ) × (bs : List ℕ) × (path : List ℕ) × (tail : List ℕ) × (rm_added
      ≡ line_with pre bs path tail)
    × AllBlank bs
    × NoBlank path
    × IsTail tail
    × (path ≡ [] → tail ≡ [])
    × Registers identity ssds disks whole (host free_state) rm_added path
store-Occurs_example = store-Occurs identity ssds disks whole (host free_state) rm_added add_inside

-- all calls succeed but those for the sysfs tree that are named
abbrev answers : (tree : Bool) → Answers
answers tree = record {
  kmem_cache = true;
  dm_io_client_create = true;
  sce_create = true;
  pdm_create = true;
  kobject_add = true;
  ssd_kset_create = true;
  hdd_kset_create = tree;
}

module_life-Balanced_example :
    ((iostash_init (answers true)).0 ≡ true)
    × (times_released pdm (module_life (answers true)).log
        ≡ times_made pdm (module_life (answers true)).log)
module_life-Balanced_example = module_life-Balanced (answers true) pdm refl refl refl refl refl refl

module_life-ctl_kobj_example :
    ((iostash_init (answers false)).0 ≡ true)
    × (times_made ctl_kobj (module_life (answers false)).log
        < times_released ctl_kobj (module_life (answers false)).log)
module_life-ctl_kobj_example = module_life-ctl_kobj (answers false) refl refl refl refl

two_then_err : NoNull (a_thread ∷ a_thread ∷ err_thread ∷ [])
unfolding NoNull
two_then_err = tt

pdm_create-NoNull_example :
    (ts : List Thread) × (pdm_create true true (a_thread ∷ a_thread ∷ err_thread ∷ [])
      ≡ some (some ts, ts))
    × (any_err (a_thread ∷ a_thread ∷ err_thread ∷ []) ≡ false
        → AllRun ts × ((us : List Thread) × (pdm_destroy ts ≡ some us) × NoneRuns us))
    × (any_err (a_thread ∷ a_thread ∷ err_thread ∷ []) ≡ true → pdm_destroy ts ≡ none)
pdm_create-NoNull_example = pdm_create-NoNull (a_thread ∷ a_thread ∷ err_thread ∷ []) two_then_err
