-- ===== src/Host/Hdd.antt =====
-- iostash_hdd.c: the disks that are cached come and go.
pub mod Again
use iostash.Prelude.{
  ℕ, ◌+◌, ◌-◌, ◌%◌, ◌^◌, ◌==◌, if◌then◌else◌, Bool, true, false, not, ◌&&◌, ◌||◌, Option, none,
  some, update,
}
use iostash.Word.{u32_add, u32_sub, u64_sub}
use iostash.State.{Sce, Ret}
use iostash.Interface.Config.{sce_addlun, sce_rmlun}
use iostash.Host.{Host, ◌>>=◌, HddInfo, set_hdd, call}
use iostash.Host.Table.{search_hdd, insert_hdd}

-- What the kernel answers during a registration: the device of the path, new memory, the whole
-- device that the path is on if it opens, whether it is held as a cache device, its capacity, and
-- which of the pool, the bio set, the work queue, the engine's memory and the kobject can be had.
pub record HddProbe : Type 0 where
  pub lookup : Option ℕ
  pub kzalloc : Option ℕ
  pub whole : Option ℕ
  pub held_by_ssd : Bool
  pub nr_sects : ℕ
  pub io_pool : Bool
  pub bioset : Bool
  pub workqueue : Bool
  pub vmalloc : Bool
  pub kobject : Bool

abbrev pub new_hdd : ℕ → HddInfo
new_hdd dev = record {
  has_bdev = false;
  dev_t = dev;
  nr_sctr = 0;
  part_start = 0;
  part_end = 0;
  lun = none;
  online = false;
  nr_ref = 0;
  io_pool = false;
  bs = false;
  io_queue = false;
  org_mapreq = false;
  io_pending = 0;
}

module _ (hash : ℕ → ℕ) where
  -- `_alloc_hdd`
  unfoldable pub alloc_hdd : HddProbe → Host → Option ℕ × Host
  alloc_hdd k w = elim (k.lookup) [
    | none ↦ (none, w)
    | some dev ↦ elim (search_hdd hash w dev) [
      | some _ ↦ (none, w)
      | none ↦ elim (k.kzalloc) [ none ↦ (none, w) | some p ↦ (some p, set_hdd p (new_hdd dev) w) ]
    ]
  ]

  -- `exists` of `_unload_hdd`
  abbrev pub is_listed : Option ℕ → ℕ → Bool
  is_listed none p = false
  is_listed (some q) p = q == p

  -- The parts of `_unload_hdd`: requests are hooked no more,
  unfoldable pub unhook : (whole p : ℕ) → Host → Host
  unhook whole p w =
      if (w.hdds p).org_mapreq && (w.hdds p).has_bdev
      then record w { hooked = update w.hooked whole false }
      else w

  -- (the two waits, for `io_pending` and for `nr_ref`, as one step in which nobody else runs: none if it
  -- waits for ever)
  unfoldable pub wait_idle : ℕ → Host → Option Host
  wait_idle p w = if (w.hdds p).io_pending == 0 && (w.hdds p).nr_ref == 0 then some w else none

  -- the disk goes offline if it is in the table, where the structure stays in these kernels, and the
  -- last requests are waited for,
  unfoldable pub put_offline : ℕ → Host → Option Host
  put_offline p w =
      let h = w.hdds p in
      if is_listed (search_hdd hash w h.dev_t) p && h.online
      then (do
        w1 ← wait_idle p (set_hdd p (record h { online = false }) w)
        some (record w1 { nr_hdd = u32_sub w1.nr_hdd 1 }))
      else some w

  -- what the disk holds is given back,
  unfoldable pub close_hdd : ℕ → Host → Host
  close_hdd p w =
      set_hdd p
        (record (w.hdds p) { io_queue = false; io_pool = false; bs = false; has_bdev = false }) w

  -- and the engine gives the LUN up.
  unfoldable pub drop_lun : ℕ → Host → Option Host
  drop_lun p w = elim (w.hdds p).lun [
    | none ↦ some w
    | some i ↦ do
      (_, w1) ← call (sce_rmlun i) w
      some (set_hdd p (record (w1.hdds p) { lun = none }) w1)
  ]

  -- `_unload_hdd`, with the whole device of its bdev.
  unfoldable pub unload_hdd : (whole p : ℕ) → Host → Option Host
  unload_hdd whole p w = do w1 ← put_offline p (unhook whole p w); drop_lun p (close_hdd p w1)

  -- `hdd_register` once the device is open: whether it is registered. Requests are hooked last.
  unfoldable pub start_hdd : HddProbe → (whole p : ℕ) → Host → Option (Bool × Host)
  start_hdd k whole p w =
      let h = record (w.hdds p) { has_bdev = true } in
      let w1 = set_hdd p h w in
      if k.held_by_ssd
      then some (false, w1)
      else if w.hooked whole
      then some (false, w1)
      else let h2 = record h {
        nr_sctr = k.nr_sects;
        part_start = 0;
        part_end = u64_sub k.nr_sects 1;
        io_pool = k.io_pool;
      } in
        if not k.io_pool
        then some (false, set_hdd p h2 w1)
        else if not k.bioset
        then some (false, set_hdd p h2 w1)
        else if not k.workqueue
        then some (false, set_hdd p (record h2 { bs = true }) w1)
        else (do
          let h3 = record h2 { bs = true; io_queue = true }
          (lun, w2) ← call (sce_addlun k.vmalloc k.nr_sects p) (set_hdd p h3 w1)
          let w3 = set_hdd p (record h3 { lun = lun }) w2
          elim lun [
            | none ↦ some (false, w3)
            | some i ↦ elim (k.kobject) [
              | false ↦ some (false, w3)
              | true ↦ do
                w4 ← insert_hdd hash p w3
                let w5 = set_hdd p (record (w4.hdds p) { online = true; org_mapreq = true }) w4
                some (
                  true,
                  record w5 { hooked = update w5.hooked whole true; nr_hdd = u32_add w5.nr_hdd 1 },
                )
            ]
          ])

  -- The same, with the answer of `_alloc_hdd`; a device that does not open leaves `bdev` NULL.
  unfoldable pub register_hdd : HddProbe → Option ℕ × Host → Option (Bool × Host)
  register_hdd k (none, w) = some (false, w)
  register_hdd k (some p, w) = elim (k.whole) [
    | none ↦ do w2 ← unload_hdd 0 p w; some (false, w2)
    | some whole ↦ do
      (done, w2) ← start_hdd k whole p w
      if done then some (true, w2) else do w3 ← unload_hdd whole p w2; some (false, w3)
  ]

  -- `hdd_register`: true for 0.
  unfoldable pub hdd_register : HddProbe → Host → Option (Bool × Host)
  hdd_register k w = register_hdd k (alloc_hdd k w)

  -- `hdd_unregister`, with the device of the path and the whole device of the structure's bdev.
  unfoldable pub hdd_unregister : Option ℕ → (whole : ℕ) → Host → Option Host
  hdd_unregister lookup whole w = elim lookup [
    | none ↦ some w
    | some dev ↦ elim (search_hdd hash w dev) [ none ↦ some w | some p ↦ unload_hdd whole p w ]
  ]
