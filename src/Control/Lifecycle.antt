-- ===== src/Control/Lifecycle.antt =====
-- iostash_module.c: loading and unloading the module. What it makes and releases is written to a log,
-- with the pointers that it passes; the kernel's answers are a parameter.
pub mod Balance
use iostash.Prelude.{ℕ, ◌+◌, Bool, true, false, not, List, [], ◌∷◌, if◌then◌else◌, ◌==◌}

-- The parts of `gctx` that are made and released.
pub data Part : Type 0 where
  io_pool io_client sce pdm ctl_kobj ssd_kset hdd_kset : Part

-- A pointer: NULL, an error's number, or to the part.
pub data Pointer : Type 0 where
  null err_ptr valid : Pointer

-- What the code does: a part made, its release called with a pointer, and `ssd_unregister_all` with
-- `hdd_unregister_all`, which take the mutex and follow the list heads, set up or not.
pub data Event : Type 0 where
  made : Part → Event
  released : Part → Pointer → Event
  unregistered : (ready : Bool) → Event

-- `gctx` as far as it matters here. `ready`: the mutex and the list heads are set up.
pub record Ctx : Type 0 where
  pub io_pool_ptr : Pointer
  pub io_client_ptr : Pointer
  pub sce_ptr : Pointer
  pub pdm_ptr : Pointer
  pub ssd_kset_ptr : Pointer
  pub hdd_kset_ptr : Pointer
  pub ready : Bool
  pub log : List Event

-- The calls that succeed.
pub record Answers : Type 0 where
  pub kmem_cache : Bool
  pub dm_io_client_create : Bool
  pub sce_create : Bool
  pub pdm_create : Bool
  pub kobject_add : Bool
  pub ssd_kset_create : Bool
  pub hdd_kset_create : Bool

abbrev pub wrote : Event → Ctx → Ctx
wrote e c = record c { log = e ∷ c.log }

abbrev pub made_if : Bool → Part → Ctx → Ctx
made_if true p c = wrote (made p) c
made_if false p c = c

abbrev pub or_null : Bool → Pointer
or_null true = valid
or_null false = null

abbrev pub or_err : Bool → Pointer
or_err true = valid
or_err false = err_ptr

-- A release under `if (gctx.…)`: the pointer is set.
abbrev pub release_set : Part → Pointer → Ctx → Ctx
release_set p null c = c
release_set p err_ptr c = wrote (released p err_ptr) c
release_set p valid c = wrote (released p valid) c

-- `memset(&gctx, 0, sizeof(gctx))`
abbrev pub zeroed : Ctx
zeroed = record {
  io_pool_ptr = null;
  io_client_ptr = null;
  sce_ptr = null;
  pdm_ptr = null;
  ssd_kset_ptr = null;
  hdd_kset_ptr = null;
  ready = false;
  log = [];
}

-- The parts of `_init_iostash_kobjects` from its two ksets on, with its labels: true for 0.
unfoldable pub make_hdd_kset : Answers → Ctx → Bool × Ctx
make_hdd_kset a c =
    let c1 = record (made_if a.hdd_kset_create hdd_kset c) {
      hdd_kset_ptr = or_null a.hdd_kset_create;
    } in
    if a.hdd_kset_create then (true, c1) else (false, wrote (released ssd_kset c1.ssd_kset_ptr) c1)

unfoldable pub make_ssd_kset : Answers → Ctx → Bool × Ctx
make_ssd_kset a c =
    let c1 = record (made_if a.ssd_kset_create ssd_kset c) {
      ssd_kset_ptr = or_null a.ssd_kset_create;
    } in
    if a.ssd_kset_create
    then make_hdd_kset a c1
    else (let c2 = wrote (released ctl_kobj valid) c1 in
        (false, wrote (released ssd_kset c2.ssd_kset_ptr) c2))

-- `_init_iostash_kobjects`
unfoldable pub init_iostash_kobjects : Answers → Ctx → Bool × Ctx
init_iostash_kobjects a c =
    let c1 = wrote (made ctl_kobj) c in
    if a.kobject_add then make_ssd_kset a c1 else (false, wrote (released ctl_kobj valid) c1)

-- `_destroy_iostash_kobjects`
unfoldable pub destroy_iostash_kobjects : Ctx → Ctx
destroy_iostash_kobjects c =
    let c1 = wrote (released ctl_kobj valid) c in
    let c2 = wrote (released ssd_kset c1.ssd_kset_ptr) c1 in
    wrote (released hdd_kset c2.hdd_kset_ptr) c2

-- `_free_resource`
unfoldable pub free_resource : Ctx → Ctx
free_resource c =
    let c1 = wrote (unregistered c.ready) c in
    let c2 = record (release_set pdm c1.pdm_ptr c1) { pdm_ptr = null } in
    let c3 = record (release_set sce c2.sce_ptr c2) { sce_ptr = null } in
    let c4 = record (release_set io_client c3.io_client_ptr c3) { io_client_ptr = null } in
    record (release_set io_pool c4.io_pool_ptr c4) { io_pool_ptr = null }

-- `iostash_init` from `pdm_create` on: it returns 0.
unfoldable pub finish_init : Answers → Ctx → Bool × Ctx
finish_init a c =
    let c1 = record (made_if a.pdm_create pdm c) { pdm_ptr = or_null a.pdm_create } in
    let (done, c2) = init_iostash_kobjects a c1 in
    let c3 = if done then c2 else destroy_iostash_kobjects c2 in (true, record c3 { ready = true })

-- `iostash_init`: true for 0.
unfoldable pub iostash_init : Answers → Bool × Ctx
iostash_init a =
    let c1 = record (made_if a.kmem_cache io_pool zeroed) { io_pool_ptr = or_null a.kmem_cache } in
    let c2 = record (made_if a.dm_io_client_create io_client c1) {
      io_client_ptr = or_err a.dm_io_client_create;
    } in
    let c3 = record (made_if a.sce_create sce c2) { sce_ptr = or_null a.sce_create } in
    if not a.kmem_cache
    then (false, free_resource c1)
    else if not a.dm_io_client_create
    then (false, free_resource c2)
    else if not a.sce_create
    then (false, free_resource c3)
    else finish_init a c3

-- `iostash_exit`
unfoldable pub iostash_exit : Ctx → Ctx
iostash_exit c = destroy_iostash_kobjects (free_resource c)

-- The life of a module: it is unloaded if it was loaded.
unfoldable pub module_life : Answers → Ctx
module_life a = let (loaded, c) = iostash_init a in if loaded then iostash_exit c else c
