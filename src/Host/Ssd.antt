-- ===== src/Host/Ssd.antt =====
-- iostash_ssd.c: cache devices come and go.
pub mod Offline
pub mod Registry
pub mod All
pub mod Answers
use iostash.Prelude.{
  ℕ, ◌+◌, ◌-◌, ◌%◌, ◌^◌, ◌==◌, if◌then◌else◌, ltb, Bool, true, false, not, ◌&&◌, ◌||◌, Option, none,
  some, update,
}
use iostash.Word.{u32_add, u32_sub}
use iostash.State.{Sce, Ret}
use iostash.Interface.Config.{sce_addcdev, sce_rmcdev}
use iostash.Host.{Host, ◌>>=◌, SsdInfo, set_ssd, call, iostash_headersct}
use iostash.Host.Table.{search_ssd, insert_ssd, delete_ssd}

-- What the kernel answers during a registration: the device of the path, the address of new memory,
-- whether the device opens, the number of its openers, its capacity and request size, whether the
-- engine's memory and the kobject can be had.
pub record SsdProbe : Type 0 where
  pub lookup : Option ℕ
  pub kzalloc : Option ℕ
  pub opens : Bool
  pub bd_openers : ℕ
  pub nr_sects : ℕ
  pub max_hw_sectors : ℕ
  pub vmalloc : Bool
  pub kobject : Bool

-- memory of bytes 0 with the path's device
abbrev pub new_ssd : ℕ → SsdInfo
new_ssd dev = record {
  has_bdev = false;
  dev_t = dev;
  nr_sctr = 0;
  cdev = none;
  online = false;
  queue_max_hw_sectors = 0;
  nr_ref = 0;
}

module _ (hash : ℕ → ℕ) where
  -- `_alloc_ssd`
  unfoldable pub alloc_ssd : SsdProbe → Host → Option ℕ × Host
  alloc_ssd k w = elim (k.lookup) [
    | none ↦ (none, w)
    | some dev ↦ elim (search_ssd hash w dev) [
      | some _ ↦ (none, w)
      | none ↦ elim (k.kzalloc) [ none ↦ (none, w) | some p ↦ (some p, set_ssd p (new_ssd dev) w) ]
    ]
  ]

  -- The first part of `_unload_ssd`: the engine gives the device up.
  unfoldable pub drop_cdev : ℕ → Host → Option Host
  drop_cdev p w = elim (w.ssds p).cdev [
    | none ↦ some w
    | some i ↦ do
      (_, w1) ← call (sce_rmcdev i) w
      some (set_ssd p (record (w1.ssds p) { cdev = none }) w1)
  ]

  -- `while(atomic_read(&ssd->nr_ref)) schedule();` as one step, in which nobody else runs: none if it
  -- waits for ever.
  unfoldable pub wait_refs : ℕ → Host → Option Host
  wait_refs p w = if (w.ssds p).nr_ref == 0 then some w else none

  -- The second part: off the table, and the wait for the last reference.
  unfoldable pub take_offline : ℕ → Host → Option Host
  take_offline p w =
      if (w.ssds p).online
      then (do
        w1 ← wait_refs p (delete_ssd hash p (set_ssd p (record (w.ssds p) { online = false }) w))
        some (record w1 { nr_ssd = u32_sub w1.nr_ssd 1 }))
      else some w

  -- `_unload_ssd`
  unfoldable pub unload_ssd : ℕ → Host → Option Host
  unload_ssd p w = do
    w1 ← drop_cdev p w
    w2 ← take_offline p w1
    some (set_ssd p (record (w2.ssds p) { has_bdev = false }) w2)

  -- The end of `ssd_register` for a device that the engine has taken.
  unfoldable pub list_ssd : ℕ → SsdInfo → Host → Option (Bool × Host)
  list_ssd p s w = do
    w1 ← insert_ssd hash p w
    let w2 = set_ssd p (record s { online = true }) w1
    some (true, record w2 { nr_ssd = u32_add w2.nr_ssd 1 })

  -- The part with the device's structure `s` and its bdev: whether it is registered.
  unfoldable pub open_ssd : SsdProbe → ℕ → SsdInfo → Host → Option (Bool × Host)
  open_ssd k p s w =
      if ltb 1 k.bd_openers
      then some (false, w)
      else if ltb k.nr_sects iostash_headersct
      then some (false, set_ssd p (record s { nr_sctr = k.nr_sects }) w)
      else (do
        let n = k.nr_sects - iostash_headersct
        let s2 = record s { nr_sctr = n; queue_max_hw_sectors = k.max_hw_sectors }
        (cdev, w2) ← call (sce_addcdev k.vmalloc n p) (set_ssd p s2 w)
        let s3 = record s2 { cdev = cdev }
        let w3 = set_ssd p s3 w2
        elim cdev [
          | none ↦ some (false, w3)
          | some i ↦ elim (k.kobject) [ false ↦ some (false, w3) | true ↦ list_ssd p s3 w3 ]
        ])

  -- `ssd_register` once the structure is there.
  unfoldable pub start_ssd : SsdProbe → ℕ → Host → Option (Bool × Host)
  start_ssd k p w =
      if not k.opens
      then some (false, w)
      else let s = record (w.ssds p) { has_bdev = true } in open_ssd k p s (set_ssd p s w)

  -- The same, with the answer of `_alloc_ssd`; a device that is refused is unloaded.
  unfoldable pub register_ssd : SsdProbe → Option ℕ × Host → Option (Bool × Host)
  register_ssd k (none, w) = some (false, w)
  register_ssd k (some p, w) = do
    (done, w1) ← start_ssd k p w
    if done then some (true, w1) else do w2 ← unload_ssd p w1; some (false, w2)

  -- `ssd_register`: true for 0.
  unfoldable pub ssd_register : SsdProbe → Host → Option (Bool × Host)
  ssd_register k w = register_ssd k (alloc_ssd k w)

  -- `ssd_unregister`, with the device of the path; `kfree` is left out, since nothing refers to the
  -- structure afterwards.
  unfoldable pub ssd_unregister : Option ℕ → Host → Option Host
  ssd_unregister lookup w = elim lookup [
    | none ↦ some w
    | some dev ↦ elim (search_ssd hash w dev) [ none ↦ some w | some p ↦ unload_ssd p w ]
  ]
