-- ===== src/Hook/Branches/Edge.antt =====
-- The bounds of a disk: `part_end` is the number of its last sector, and the test takes it for the
-- number of the sector behind it.
use iostash.Prelude.{
  ℕ, ◌+◌, ◌%◌, ◌^◌, ◌<◌, ◌≡◌, ◌==◌, Bool, ltb, lt→ltb, true, false, not, ◌||◌, arith, some,
}
use iostash.Host.{Host, HddInfo}
use iostash.Hook.{Bio, passed, Memory, iostash_mkrequest}
use iostash.Hook.Branches.{OnDisk, disk_sector, bounded, back, moved, mkrequest-outside}

-- The bounds that `hdd_register` gives to a disk.
pub record Whole (h : HddInfo) : Type 0 where
  pub start : h.part_start ≡ 0
  pub end : h.part_end + 1 ≡ h.nr_sctr
  pub small : h.nr_sctr < 2 ^ 64

beyond : (a b c : Bool) → c ≡ true → not (a || (b || c)) ≡ false
beyond a b c h = ground (arith, h)

last_sector-outside :
    (h : HddInfo) (bio : Bio)
    → Whole h
    → disk_sector bio + bio.nr_sctr ≡ h.nr_sctr
    → bounded h bio ≡ false
last_sector-outside h bio k e =
    beyond (bio.nr_sctr == 0) (ltb (disk_sector bio) h.part_start)
      (ltb h.part_end ((disk_sector bio + bio.nr_sctr) % 2 ^ 64))
      (lt→ltb h.part_end ((disk_sector bio + bio.nr_sctr) % 2 ^ 64)
        (omega (arith, e, k.end, k.small)))

-- A request that ends with the last sector of a registered disk goes on to the disk, and the engine
-- keeps its state: if it is a write, the cached copy of what it writes stays valid.
pub mkrequest-last_sector :
    (hash : ℕ → ℕ) (m : Memory) (w : Host) (bio : Bio) (p i : ℕ)
    → OnDisk hash w bio.dev p i
    → Whole (w.hdds p)
    → disk_sector bio + bio.nr_sctr ≡ (w.hdds p).nr_sctr
    → iostash_mkrequest hash m bio w ≡ some (passed, moved p (back p w) w.sce w)
mkrequest-last_sector hash m w bio p i d k e =
    mkrequest-outside hash m w bio p i d (last_sector-outside (w.hdds p) bio k e)
