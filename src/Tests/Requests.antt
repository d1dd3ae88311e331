-- ===== src/Tests/Requests.antt =====
-- The theorems on requests and on the registration of devices, with one SSD, one disk and one read.
use iostash.Prelude.{ℕ, ◌<◌, ◌≡◌, Bool, true, false, arith, refl, ap, some, none, [], ◌∷◌, update}
use iostash.Word.{sce_maxlun}
use iostash.State.{Sce, success, Run, ok, bug, out_of_fuel}
use iostash.FreeList.{freefraglist_put, put_frag, freefraglist_rmcdev, rmcdev_loop, unlink}
use iostash.Cdev.{cdev_search, cdev_init, cdev_destroy}
use iostash.Lun.{lun_purge, purge_loop, lun_destroy, lun_rmcdev, rmcdev_from, drop_desc}
use iostash.Lun.Index.{search_from}
use iostash.Mapping.{unmap_frag}
use iostash.Interface.Config.{
  sce_addcdev, add_at, add_device, put_all, first_unused, sce_rmcdev, rmcdev_luns, sce_rmlun,
}
use iostash.Host.{Host, SsdInfo, HddInfo, IostashBio}
use iostash.Host.Table.{search_ssd, search_hdd}
use iostash.Host.Ssd.{SsdProbe, ssd_register, ssd_unregister}
use iostash.Host.Ssd.Registry.{Registered, ssd_register-Registered, ssd_unregister-Registered}
use iostash.Host.Hdd.{HddProbe, hdd_register, hdd_unregister}
use iostash.Host.Hdd.Again.{hdd_register-hdd_unregister}
use iostash.Hook.{Bio, passed, taken, Memory, iostash_mkrequest, serve}
use iostash.Hook.Branches.{OnDisk, moved, back}
use iostash.Hook.Branches.Coherence.{Covers, mkrequest-mkrequest}
use iostash.Hook.Branches.Edge.{mkrequest-last_sector}
use iostash.Hook.Branches.Served.{new_io, opened, Settled, serve-run_events}
use iostash.Hook.Life.{
  at_ssd, ended, In, ssd_back, work, disk_back, failed, retried, answered, Books, books, flight,
  Follows,
}
use iostash.Hook.Life.Steps.{Fits}
use iostash.Hook.Life.Start.{clones}
use iostash.Hook.Life.Runs.{done, step, run_events, run_events-Follows}
use iostash.Tests.Device.{free_state, used_state, used_state-Inv}

abbrev pub identity : ℕ → ℕ
identity d = d

abbrev ssd : SsdInfo
ssd = record {
  has_bdev = true;
  dev_t = 5;
  nr_sctr = 2048;
  cdev = some 0;
  online = true;
  queue_max_hw_sectors = 64;
  nr_ref = 0;
}

abbrev disk : HddInfo
disk = record {
  has_bdev = true;
  dev_t = 3;
  nr_sctr = 2048;
  part_start = 0;
  part_end = 2047;
  lun = some 0;
  online = true;
  nr_ref = 0;
  io_pool = true;
  bs = true;
  io_queue = true;
  org_mapreq = true;
  io_pending = 0;
}

-- Every address holds the same SSD, and the same disk.
abbrev pub host : Sce → Host
host s = record {
  sce = s;
  ssds = λ p. ssd;
  ssdtbl = λ b. [];
  nr_ssd = 1;
  hdds = λ p. disk;
  hddtbl = λ b. 9 ∷ [];
  nr_hdd = 1;
  hooked = λ d. true;
  ios = λ a. none;
  in_flight = λ a. flight 0 0 false;
  ended = λ a. 0;
  st_read = 0;
  st_write = 0;
  st_cread = 0;
}

abbrev request : Bool → ℕ → Bio
request write sector = record {
  write = write;
  dev = 3;
  sector = sector;
  nr_sctr = 8;
  start_sect = 0;
}

abbrev no_memory : Memory
no_memory = record { io = none; clone4ssd = false; clone4hdd = false }

host-OnDisk : (s : Sce) → OnDisk identity (host s) 3 9 0
host-OnDisk s = record { found = refl; online = refl; lun = refl }

request-Covers : (write : Bool) → Covers (request write 0) 3
request-Covers write = record {
  request = record { no_wrap = omega arith; width = omega arith };
  from = omega arith;
  below = omega arith;
}

mkrequest-mkrequest_example :
    (w' : Host) × (w'' : Host) × (iostash_mkrequest identity no_memory
        (request true 0)
        (host (used_state 0))
      ≡ some (passed, w'))
    × (iostash_mkrequest identity no_memory (request false 0) w' ≡ some (passed, w''))
mkrequest-mkrequest_example =
    mkrequest-mkrequest identity no_memory no_memory (host (used_state 0)) [] (request true 0)
      (request false 0) 9 0 3 (host-OnDisk (used_state 0)) refl refl refl (used_state-Inv 0)
      (omega arith) refl refl (request-Covers true) (request-Covers false)

mkrequest-last_sector_example :
    iostash_mkrequest identity no_memory (request true 2040) (host free_state)
    ≡ some (passed, moved 9 (back 9 (host free_state)) free_state (host free_state))
mkrequest-last_sector_example =
    mkrequest-last_sector identity no_memory (host free_state) (request true 2040) 9 0
      (host-OnDisk free_state) (record { start = refl; end = refl; small = omega arith }) refl

-- a read of the first page, with its structure at the address 1
abbrev read_io : IostashBio
read_io = new_io 9 7 0 0 (request false 0)

abbrev with_io : (nr_pending : ℕ) → (at_ssd : ℕ) → Host
with_io n x = record (host (used_state 1)) {
  ios = λ a. some (record read_io { io_pending = n });
  in_flight = λ a. flight x 0 false;
}

index_lem : (i : ℕ) → some 0 ≡ some i → i < sce_maxlun
index_lem i e =
    let same : 0 ≡ i = ap (λ o. elim o [ none ↦ 0 | some x ↦ x ]) e in omega (arith, same)

with_io-Fits : (n x : ℕ) → Fits (with_io n x) read_io []
with_io-Fits n x = record {
  inv = used_state-Inv 1;
  lun = λ i e. index_lem i e;
  request = record { no_wrap = omega arith; width = omega arith };
}

abbrev before : Books
before = books (with_io 1 1) 1 read_io

run_events-Follows_example :
    Follows 1 read_io before
      (some ended)
      (run_events 1 (ssd_back true ∷ work true ∷ disk_back false ∷ []) (with_io 1 1))
run_events-Follows_example =
    run_events-Follows 1 read_io before (step failed (step retried (step (answered false) done)))
      (with_io 1 1) ([], with_io-Fits 1 1) (record { shape = (refl, refl); books_lem = refl })

serve-run_events_example :
    (w' : Host) × (w'' : Host) × (serve
        (clones (some 1) true true)
        9
        7
        0
        0
        (request false 0)
        (host (used_state 1))
      ≡ some (taken, w'))
    × In w' 1 read_io (opened 9 7 0 0 (request false 0) 1 (host (used_state 1))) at_ssd
    × (run_events 1 (ssd_back true ∷ work true ∷ disk_back false ∷ []) w' ≡ some w'')
    × Settled 9 7 0 0 (request false 0) 1 (host (used_state 1)) w''
serve-run_events_example =
    serve-run_events 9 7 0 0 (request false 0) 1 true (host (used_state 1)) []
      (ssd_back true ∷ work true ∷ disk_back false ∷ []) (record { online = refl; size = refl })
      refl (used_state-Inv 1) (λ i e. index_lem i e)
      (record { no_wrap = omega arith; width = omega arith }) (omega arith, omega arith)
      (step failed (step retried (step (answered false) done)))

-- what a call leaves
abbrev left : {A : Type 0} → Sce → Run A → Sce
left s (ok a s') = s'
left s bug = s
left s out_of_fuel = s

abbrev pub new_probe : SsdProbe
new_probe = record {
  lookup = some 6;
  kzalloc = some 8;
  opens = true;
  bd_openers = 1;
  nr_sects = 4096;
  max_hw_sectors = 64;
  vmalloc = true;
  kobject = true;
}

adds :
    sce_addcdev true 2048 8 free_state
    ≡ ok (some 1) (left free_state (sce_addcdev true 2048 8 free_state))
unfolding sce_addcdev add_at add_device put_all first_unused cdev_search search_from cdev_init
    freefraglist_put put_frag
adds = refl

ssd_register-Registered_example :
    (w' : Host) × (ssd_register identity new_probe (host free_state) ≡ some (true, w'))
    × (search_ssd identity w' 6 ≡ some 8)
    × Registered identity (host free_state) w' 6 8 1 2048
    × (w'.sce ≡ left free_state (sce_addcdev true 2048 8 free_state))
ssd_register-Registered_example =
    ssd_register-Registered identity new_probe (host free_state) 6 8 1
      (left free_state (sce_addcdev true 2048 8 free_state))
      (record {
        lookup = refl;
        kzalloc = refl;
        opens = refl;
        alone = omega arith;
        size = omega arith;
        kobject = refl;
      })
      (omega arith) refl adds

removes : sce_rmcdev 0 free_state ≡ ok success (left free_state (sce_rmcdev 0 free_state))
unfolding sce_rmcdev rmcdev_luns freefraglist_rmcdev rmcdev_loop unlink cdev_destroy lun_rmcdev
    rmcdev_from drop_desc
removes = refl

-- the host with the SSD 7 in its table
abbrev listed_host : Host
listed_host = record (host free_state) { ssdtbl = update (λ b. []) 5 (7 ∷ []); nr_ssd = 2 }

ssd_unregister-Registered_example :
    (w'' : Host) × (ssd_unregister identity (some 5) listed_host ≡ some w'')
    × (search_ssd identity w'' 5 ≡ none)
    × (w''.ssdtbl ≡ (λ b. []))
    × (w''.nr_ssd ≡ 1)
    × ((w''.ssds 7).has_bdev ≡ false)
    × (w''.sce ≡ left free_state (sce_rmcdev 0 free_state))
ssd_unregister-Registered_example =
    ssd_unregister-Registered identity 7 (host free_state) listed_host 5 0 2048 success
      (left free_state (sce_rmcdev 0 free_state))
      (record {
        online = refl;
        has_bdev = refl;
        dev_t = refl;
        cdev = refl;
        nr_sctr_lem = refl;
        idle = refl;
        others = λ q ne. refl;
        table = refl;
        count = refl;
      })
      refl refl refl removes (omega arith)

abbrev pub disk_probe : HddProbe
disk_probe = record {
  lookup = some 3;
  kzalloc = some 4;
  whole = some 3;
  held_by_ssd = false;
  nr_sects = 2048;
  io_pool = true;
  bioset = true;
  workqueue = true;
  vmalloc = true;
  kobject = true;
}

removes_lun : sce_rmlun 0 free_state ≡ ok success (left free_state (sce_rmlun 0 free_state))
unfolding sce_rmlun lun_purge purge_loop lun_destroy unmap_frag
removes_lun = refl

hdd_register-hdd_unregister_example :
    (w' : Host) × (hdd_unregister identity (some 3) 3 (host free_state) ≡ some w')
    × (w'.sce ≡ left free_state (sce_rmlun 0 free_state))
    × (search_hdd identity w' 3 ≡ some 9)
    × (hdd_register identity disk_probe w' ≡ some (false, w'))
hdd_register-hdd_unregister_example =
    hdd_register-hdd_unregister identity disk_probe (host free_state) 3 9 3 0 success
      (left free_state (sce_rmlun 0 free_state)) refl refl refl refl removes_lun refl
