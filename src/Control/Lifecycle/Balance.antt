-- ===== src/Control/Lifecycle/Balance.antt =====
-- What the module makes it releases once, unless a part of its sysfs tree cannot be made.
use iostash.Prelude.{
  ℕ, suc, ◌+◌, ◌<◌, ◌≡◌, refl, Bool, true, false, not, ◌&&◌, List, [], ◌∷◌, arith, ◌==◌,
}
use iostash.Control.Lifecycle.{
  Part, io_pool, io_client, sce, pdm, ctl_kobj, ssd_kset, hdd_kset, null, err_ptr, valid, Event,
  made, released, unregistered, Answers, make_hdd_kset, make_ssd_kset, init_iostash_kobjects,
  destroy_iostash_kobjects, free_resource, finish_init, iostash_init, iostash_exit, module_life,
}

abbrev code : Part → ℕ
code io_pool = 0
code io_client = 1
code sce = 2
code pdm = 3
code ctl_kobj = 4
code ssd_kset = 5
code hdd_kset = 6

abbrev pub one_if : Bool → ℕ
one_if true = 1
one_if false = 0

-- How often a part is made, and how often a pointer to it, or an error's number, is released.
abbrev pub times_made : Part → List Event → ℕ
times_made p [] = 0
times_made p (made q ∷ es) = one_if (code p == code q) + times_made p es
times_made p (released q x ∷ es) = times_made p es
times_made p (unregistered r ∷ es) = times_made p es

abbrev pub times_released : Part → List Event → ℕ
times_released p [] = 0
times_released p (made q ∷ es) = times_released p es
times_released p (released q null ∷ es) = times_released p es
times_released p (released q err_ptr ∷ es) = one_if (code p == code q) + times_released p es
times_released p (released q valid ∷ es) = one_if (code p == code q) + times_released p es
times_released p (unregistered r ∷ es) = times_released p es

-- How often the lists of devices are followed before they are set up.
abbrev pub times_unready : List Event → ℕ
times_unready [] = 0
times_unready (made q ∷ es) = times_unready es
times_unready (released q x ∷ es) = times_unready es
times_unready (unregistered true ∷ es) = times_unready es
times_unready (unregistered false ∷ es) = suc (times_unready es)

-- Whether the module's sysfs tree can be made.
abbrev pub kobjects : Answers → Bool
kobjects a = a.kobject_add && (a.ssd_kset_create && a.hdd_kset_create)

abbrev answers : (b1 b2 b3 b4 b5 b6 b7 : Bool) → Answers
answers b1 b2 b3 b4 b5 b6 b7 = record {
  kmem_cache = b1;
  dm_io_client_create = b2;
  sce_create = b3;
  pdm_create = b4;
  kobject_add = b5;
  ssd_kset_create = b6;
  hdd_kset_create = b7;
}

-- The three theorems, with the answers as seven tests.
balanced :
    (b4 : Bool) (p : Part)
    → (let a = answers true true true b4 true true true in
        ((iostash_init a).0 ≡ true)
        × (times_released p (module_life a).log ≡ times_made p (module_life a).log))
unfolding module_life iostash_init free_resource finish_init iostash_exit destroy_iostash_kobjects
    init_iostash_kobjects make_ssd_kset make_hdd_kset
balanced false p = (refl, omega arith)
balanced true p = (refl, omega arith)

excess :
    (b4 b5 b6 b7 : Bool)
    → (b5 && (b6 && b7)) ≡ false
    → (let a = answers true true true b4 b5 b6 b7 in
        ((iostash_init a).0 ≡ true)
        × (times_made ctl_kobj (module_life a).log < times_released ctl_kobj (module_life a).log))
unfolding module_life iostash_init free_resource finish_init iostash_exit destroy_iostash_kobjects
    init_iostash_kobjects make_ssd_kset make_hdd_kset
excess false false b6 b7 h = (refl, omega arith)
excess true false b6 b7 h = (refl, omega arith)
excess false true false b7 h = (refl, omega arith)
excess true true false b7 h = (refl, omega arith)
excess false true true false h = (refl, omega arith)
excess true true true false h = (refl, omega arith)
excess b4 true true true h = absurd (ground arith)

unready :
    (b1 b2 b3 b4 b5 b6 b7 : Bool)
    → (let a = answers b1 b2 b3 b4 b5 b6 b7 in
        times_unready (module_life a).log ≡ one_if (not (iostash_init a).0))
unfolding module_life iostash_init free_resource finish_init iostash_exit destroy_iostash_kobjects
    init_iostash_kobjects make_ssd_kset make_hdd_kset
unready false b2 b3 b4 b5 b6 b7 = refl
unready true false b3 b4 b5 b6 b7 = refl
unready true true false b4 b5 b6 b7 = refl
unready true true true false false b6 b7 = refl
unready true true true true false b6 b7 = refl
unready true true true false true false b7 = refl
unready true true true true true false b7 = refl
unready true true true false true true false = refl
unready true true true true true true false = refl
unready true true true false true true true = refl
unready true true true true true true true = refl

-- If the memory is there and the objects of the sysfs tree can be made, with or without a population
-- daemon, `iostash_init` returns 0, and over the life of the module each part is released as often as
-- it is made.
pub module_life-Balanced :
    (a : Answers) (p : Part)
    → a.kmem_cache ≡ true
    → a.dm_io_client_create ≡ true
    → a.sce_create ≡ true
    → a.kobject_add ≡ true
    → a.ssd_kset_create ≡ true
    → a.hdd_kset_create ≡ true
    → ((iostash_init a).0 ≡ true)
      × (times_released p (module_life a).log ≡ times_made p (module_life a).log)
module_life-Balanced a p h1 h2 h3 h5 h6 h7 =
    balanced_from a.kmem_cache a.dm_io_client_create a.sce_create a.pdm_create a.kobject_add
      a.ssd_kset_create a.hdd_kset_create h1 h2 h3 h5 h6 h7
  where
    balanced_from :
        (b1 b2 b3 b4 b5 b6 b7 : Bool)
        → b1 ≡ true
        → b2 ≡ true
        → b3 ≡ true
        → b5 ≡ true
        → b6 ≡ true
        → b7 ≡ true
        → (let a = answers b1 b2 b3 b4 b5 b6 b7 in
            ((iostash_init a).0 ≡ true)
            × (times_released p (module_life a).log ≡ times_made p (module_life a).log))
    balanced_from b1 b2 b3 b4 b5 b6 b7 h1 h2 h3 h5 h6 h7 =
        rw (h1, h2, h3, h5, h6, h7) (balanced b4 p)

-- If the memory is there and an object of the sysfs tree cannot be made, `iostash_init` returns 0 all
-- the same, and over the life of the module `ctl_kobj` is released more often than it is made.
pub module_life-ctl_kobj :
    (a : Answers)
    → a.kmem_cache ≡ true
    → a.dm_io_client_create ≡ true
    → a.sce_create ≡ true
    → kobjects a ≡ false
    → ((iostash_init a).0 ≡ true)
      × (times_made ctl_kobj (module_life a).log < times_released ctl_kobj (module_life a).log)
module_life-ctl_kobj a h1 h2 h3 k =
    excess_from a.kmem_cache a.dm_io_client_create a.sce_create a.pdm_create a.kobject_add
      a.ssd_kset_create a.hdd_kset_create h1 h2 h3 k
  where
    excess_from :
        (b1 b2 b3 b4 b5 b6 b7 : Bool)
        → b1 ≡ true
        → b2 ≡ true
        → b3 ≡ true
        → (b5 && (b6 && b7)) ≡ false
        → (let a = answers b1 b2 b3 b4 b5 b6 b7 in
            ((iostash_init a).0 ≡ true)
            × (times_made ctl_kobj (module_life a).log
                < times_released ctl_kobj (module_life a).log))
    excess_from b1 b2 b3 b4 b5 b6 b7 h1 h2 h3 k = rw (h1, h2, h3) (excess b4 b5 b6 b7 k)

-- The mutex and the lists of devices are used before they are set up in exactly those lives of the
-- module whose `iostash_init` fails, and then once.
pub module_life-unready :
    (a : Answers) → times_unready (module_life a).log ≡ one_if (not (iostash_init a).0)
module_life-unready a =
    unready a.kmem_cache a.dm_io_client_create a.sce_create a.pdm_create a.kobject_add
      a.ssd_kset_create a.hdd_kset_create
