-- ===== src/Host/Pop.antt =====
-- iostash_population.c and the sector arithmetic of iostash_iohook.c: where the copy of a fragment is.
pub mod Places
use iostash.Prelude.{
  ℕ, ◌+◌, ◌-◌, ◌*◌, ◌/◌, ◌%◌, ◌^◌, ◌==◌, if◌then◌else◌, leb, Bool, true, false, ◌&&◌, Option, none,
  some,
}
use iostash.Word.{sce_sctrperfrag, u32_add, u64_sub}
use iostash.State.{Ret, success, error}
use iostash.Host.{Host, SsdInfo, iostash_headersct}

-- The first sector that `poptask_read` reads of the disk: the product has 32 bits.
abbrev pub pop_read_sector : (lun_fragnum : ℕ) → ℕ
pop_read_sector lun_fragnum = (lun_fragnum * sce_sctrperfrag) % 2 ^ 32

-- How many it reads: less at the end of the disk, in 32 bits.
abbrev pub pop_read_count : (lun_fragnum hdd_nr_sctr : ℕ) → ℕ
pop_read_count lun_fragnum hdd_nr_sctr =
    let sctrnum = pop_read_sector lun_fragnum in
    if leb hdd_nr_sctr ((sctrnum + sce_sctrperfrag) % 2 ^ 64)
    then u64_sub hdd_nr_sctr sctrnum % 2 ^ 32
    else sce_sctrperfrag

-- The first sector that `poptask_write` writes on the SSD: product and sum have 32 bits.
abbrev pub pop_write_sector : (cdev_fragnum : ℕ) → ℕ
pop_write_sector cdev_fragnum = (cdev_fragnum * sce_sctrperfrag + iostash_headersct) % 2 ^ 32

-- Whether `poptask_write` succeeds, with the result of `dm_io`; it holds a reference meanwhile.
abbrev pub poptask_write : (dm_io : Bool) → SsdInfo → Bool
poptask_write dm_io ssd = elim ssd.cdev [
  | none ↦ false
  | some _ ↦ (ssd.has_bdev && ssd.online) && dm_io
]

-- `BIO_SECTOR(clone)` of `_clone_init` for the SSD: only the product has 32 bits.
abbrev pub clone_sector : (fragnum psn : ℕ) → ℕ
clone_sector fragnum psn =
    ((fragnum * sce_sctrperfrag) % 2 ^ 32 + psn % sce_sctrperfrag + iostash_headersct) % 2 ^ 64
