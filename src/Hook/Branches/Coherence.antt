-- ===== src/Hook/Branches/Coherence.antt =====
-- Reads after writes, from request to request.
use mathlib.Core.Path.{subst}
use iostash.Prelude.{ℕ, ◌+◌, ◌≤◌, ◌<◌, ◌≡◌, true, false, sym, some, List}
use iostash.Word.{sce_maxlun, u32_add}
use iostash.State.{Loc}
use iostash.Invariant.{Inv}
use iostash.Interface.Io.{lock_lun}
use iostash.Interface.Io.Pages.{Request}
use iostash.Interface.Io.Stale.{sce_get4read-sce_invalidate}
use iostash.Host.{Host}
use iostash.Hook.{Bio, passed, Memory, iostash_mkrequest}
use iostash.Hook.Branches.{
  OnDisk, OnDisk-moved, disk_sector, bounded, back, moved, mkrequest-write, mkrequest-miss,
}

-- A request of the sectors of `bio`, with `x` one of them.
pub record Covers (bio : Bio) (x : ℕ) : Type 0 where
  pub request : Request (disk_sector bio) bio.nr_sctr
  pub from : disk_sector bio ≤ x
  pub below : x < disk_sector bio + bio.nr_sctr

-- On a registered disk whose engine is in the invariant, a write within the bounds of the module and
-- of the LUN goes on to the disk, and a read of the same disk that comes next and shares a sector `x`
-- with it goes to the disk too, and not to the SSD.
pub mkrequest-mkrequest :
    (hash : ℕ → ℕ) (m m' : Memory) (w : Host) (ls : List Loc) (wr rd : Bio) (p i x : ℕ)
    → OnDisk hash w wr.dev p i
    → rd.dev ≡ wr.dev
    → wr.write ≡ true
    → rd.write ≡ false
    → Inv w.sce ls
    → i < sce_maxlun
    → bounded (w.hdds p) wr ≡ true
    → lock_lun (w.sce.luntbl i) (disk_sector wr) wr.nr_sctr true ≡ true
    → Covers wr x
    → Covers rd x
    → (w' : Host) × (w'' : Host) × (iostash_mkrequest hash m wr w ≡ some (passed, w'))
      × (iostash_mkrequest hash m' rd w' ≡ some (passed, w''))
mkrequest-mkrequest hash m m' w ls wr rd p i x d dev dir dir' v hi inside locked a b =
    let (s, out, s', run, miss) =
      sce_get4read-sce_invalidate w.sce ls i (disk_sector wr) wr.nr_sctr (disk_sector rd) rd.nr_sctr
        x v hi a.request locked b.request (a.from, a.below) (b.from, b.below) in
    let w1 : Host = record w { st_write = u32_add w.st_write 1 } in
    let d1 : OnDisk hash w1 wr.dev p i = record {
      found = d.found;
      online = d.online;
      lun = d.lun;
    } in
    let d2 =
      subst (λ y. OnDisk hash (moved p (back p w) s w1) y p i) (sym dev)
        (OnDisk-moved hash w1 wr.dev p i (back p w) s d1) in
    let (w'', read) = mkrequest-miss hash m' (moved p (back p w) s w1) rd p i d2 out s' dir' miss in
    (_, w'', mkrequest-write hash m w wr p i d s _ dir inside run, read)
