-- ===== src/Host.antt =====
-- The structures of iostash.h, the hash tables of iostash_hdd.c and iostash_ssd.c, and the way their
-- code calls the engine. The kernel is one of version 4.4 or later. A pointer to a structure of the
-- module is an address, an entry of a function; `hash_32` is a parameter of what uses it.
pub mod Table
pub mod Ssd
pub mod Hdd
pub mod Pop
use iostash.Prelude.{
  ℕ, ◌+◌, ◌%◌, ◌^◌, ◌==◌, if◌then◌else◌, Bool, true, false, Option, none, some, List, update,
}
use iostash.State.{Sce, Run, ok, bug, out_of_fuel, Cmd}

-- `struct ssd_info`; `cdev` is the engine's index of the device.
pub record SsdInfo : Type 0 where
  pub has_bdev : Bool
  pub dev_t : ℕ
  pub nr_sctr : ℕ
  pub cdev : Option ℕ
  pub online : Bool
  pub queue_max_hw_sectors : ℕ
  pub nr_ref : ℕ

-- `struct hdd_info`; `lun` is the engine's index, `org_mapreq` says that the pointer is set.
pub record HddInfo : Type 0 where
  pub has_bdev : Bool
  pub dev_t : ℕ
  pub nr_sctr : ℕ
  pub part_start : ℕ
  pub part_end : ℕ
  pub lun : Option ℕ
  pub online : Bool
  pub nr_ref : ℕ
  pub io_pool : Bool
  pub bs : Bool
  pub io_queue : Bool
  pub org_mapreq : Bool
  pub io_pending : ℕ

-- `struct iostash_bio`; `is_read` is the direction of `base_bio`.
pub record IostashBio : Type 0 where
  pub hdd : ℕ
  pub ssd : ℕ
  pub is_read : Bool
  pub fragnum : ℕ
  pub nr_sctr : ℕ
  pub psn : ℕ
  pub io_pending : ℕ
  pub error : Bool

-- What a request of the module has in flight: clones at the SSD and at the disk, and the work queue.
pub record InFlight : Type 0 where
  pub at_ssd : ℕ
  pub at_hdd : ℕ
  pub queued : Bool

-- `IOSTASHCTX` with the memory its pointers lead to. `hooked` says of a device that its queue's
-- `make_request_fn` is `iostash_mkrequest`; `ios` are the `iostash_bio` that are allocated, and `ended`
-- counts the calls of `bio_endio` on their base bios.
pub record Host : Type 0 where
  pub sce : Sce
  pub ssds : ℕ → SsdInfo
  pub ssdtbl : ℕ → List ℕ
  pub nr_ssd : ℕ
  pub hdds : ℕ → HddInfo
  pub hddtbl : ℕ → List ℕ
  pub nr_hdd : ℕ
  pub hooked : ℕ → Bool
  pub ios : ℕ → Option IostashBio
  pub in_flight : ℕ → InFlight
  pub ended : ℕ → ℕ
  pub st_read : ℕ
  pub st_write : ℕ
  pub st_cread : ℕ

-- `IOSTASH_HEADERSCT`
abbrev pub iostash_headersct : ℕ
iostash_headersct = 2048

-- `IOSTASH_MAXSSD_BCKTS` and `IOSTASH_MAXHDD_BCKTS`
abbrev pub iostash_maxssd_bckts : ℕ
iostash_maxssd_bckts = 32

abbrev pub iostash_maxhdd_bckts : ℕ
iostash_maxhdd_bckts = 512

module _ {A B : Type 0} where
  infixl 5 ◌>>=◌
  abbrev pub ◌>>=◌ : Option A → (A → Option B) → Option B
  none >>= k = none
  some a >>= k = k a

-- A call of the engine; none is a `BUG_ON`, a bad read, or a use of freed memory.
abbrev pub of_run : {A : Type 0} → Host → Run A → Option (A × Host)
of_run w (ok a s) = some (a, record w { sce = s })
of_run w bug = none
of_run w out_of_fuel = none

abbrev pub call : {A : Type 0} → Cmd A → Host → Option (A × Host)
call c w = of_run w (c w.sce)

abbrev pub set_ssd : ℕ → SsdInfo → Host → Host
set_ssd p x w = record w { ssds = update w.ssds p x }

abbrev pub set_hdd : ℕ → HddInfo → Host → Host
set_hdd p x w = record w { hdds = update w.hdds p x }
