-- ===== src/Hook/Branches.antt =====
-- The branches of `iostash_mkrequest`.
pub mod Coherence
pub mod Edge
pub mod Served
use mathlib.Core.Path.{subst, fun_ext}
use iostash.Prelude.{
  ℕ, ◌+◌, ◌-◌, ◌%◌, ◌^◌, ◌≤◌, ◌<◌, ◌≡◌, ◌==◌, if◌then◌else◌, Bool, true, false, not, ◌||◌, refl, ap,
  ◌∙◌, sym, Option, some, none, List, update, update_self, update_all, update-update, arith,
  Bool-cases, inl, inr,
}
use iostash.Word.{sce_maxlun, u32_add, u32_sub}
use iostash.State.{Sce, Ret, success, error, ok, Loc}
use iostash.Invariant.{Inv}
use iostash.Util.{Fmap}
use iostash.Interface.Io.{sce_get4read, sce_invalidate}
use iostash.Host.{Host, HddInfo, set_hdd}
use iostash.Host.Table.{find_dev, search_hdd}
use iostash.Hook.{
  Bio, pass_on, Route, passed, Memory, get_hdd, put_hdd, off_limits, one_fragment, mkrequest_read,
  mkrequest_write, iostash_mkrequest,
}

-- the sector of the disk
abbrev pub disk_sector : Bio → ℕ
disk_sector bio = (bio.sector + bio.start_sect) % 2 ^ 64

-- A request to a disk `p` that is registered as the LUN `i`.
pub record OnDisk (hash : ℕ → ℕ) (w : Host) (dev p i : ℕ) : Type 0 where
  pub found : search_hdd hash w dev ≡ some p
  pub online : (w.hdds p).online ≡ true
  pub lun : (w.hdds p).lun ≡ some i

-- The host with another engine and another count of references to the disk.
abbrev pub moved : ℕ → ℕ → Sce → Host → Host
moved p n s w = set_hdd p (record (w.hdds p) { nr_ref = n }) (record w { sce = s })

dev_t-moved :
    (p n : ℕ) (s : Sce) (w : Host)
    → ◌≡◌ {A = ℕ → ℕ} (λ q. ((moved p n s w).hdds q).dev_t) (λ q. (w.hdds q).dev_t)
dev_t-moved p n s w = fun_ext λ q.
    update_all (λ j h. h.dev_t ≡ (w.hdds j).dev_t) w.hdds p (record (w.hdds p) { nr_ref = n }) refl
      (λ j. refl) q

pub OnDisk-moved :
    (hash : ℕ → ℕ) (w : Host) (dev p i n : ℕ) (s : Sce)
    → OnDisk hash w dev p i
    → OnDisk hash (moved p n s w) dev p i
OnDisk-moved hash w dev p i n s d =
    let same = update_self w.hdds p (record (w.hdds p) { nr_ref = n }) in
    record {
      found =
          ap (λ f. if dev == 0 then none else find_dev f dev (w.hddtbl (hash dev % 512)))
            (dev_t-moved p n s w)
          ∙ d.found;
      online = ap HddInfo.online same ∙ d.online;
      lun = ap HddInfo.lun same ∙ d.lun;
    }

-- The disk with one reference more, and the request passed on.
abbrev more : ℕ → Host → ℕ
more p w = u32_add (w.hdds p).nr_ref 1

abbrev pub back : ℕ → Host → ℕ
back p w = u32_sub (more p w) 1

put_hdd-moved :
    (p n : ℕ) (s : Sce) (w : Host) → put_hdd p (moved p n s w) ≡ moved p (u32_sub n 1) s w
put_hdd-moved p n s w =
    let v = record (w.hdds p) { nr_ref = n } in
    ap (λ h. set_hdd p (record h { nr_ref = u32_sub h.nr_ref 1 }) (moved p n s w))
      (update_self w.hdds p v)
    ∙ ap (λ f. record w { sce = s; hdds = f })
        (update-update w.hdds p v (record (w.hdds p) { nr_ref = u32_sub n 1 }))

pass_on-moved :
    (p n : ℕ) (s : Sce) (w : Host)
    → pass_on p (moved p n s w) ≡ some (passed, moved p (u32_sub n 1) s w)
pass_on-moved p n s w = ap (λ x. some (passed, x)) (put_hdd-moved p n s w)

-- `psn` and `nr_sctr` within the disk
abbrev pub bounded : HddInfo → Bio → Bool
bounded h bio = not (bio.nr_sctr == 0 || off_limits h (disk_sector bio) bio.nr_sctr)

not-true : {b : Bool} → not b ≡ true → b ≡ false
not-true {b = true} h = absurd (ground arith)
not-true {b = false} h = refl

not-false : {b : Bool} → not b ≡ false → b ≡ true
not-false {b = true} h = refl
not-false {b = false} h = absurd (ground arith)

module _ (bio : Bio) (x : Host) (p psn i : ℕ) (s : Sce) (r : Option (Route × Host)) where
  write_passed :
      (ret : Ret)
      → (x.hdds p).lun ≡ some i
      → sce_invalidate i psn bio.nr_sctr x.sce ≡ ok ret s
      → pass_on p (record x { st_write = u32_add x.st_write 1; sce = s }) ≡ r
      → mkrequest_write p psn bio x ≡ r
  unfolding mkrequest_write
  write_passed ret lun run e = rw (mkrequest_write, lun, run) e

  read_passed :
      (m : Memory) (out : Option Fmap)
      → one_fragment psn bio.nr_sctr ≡ true
      → (x.hdds p).lun ≡ some i
      → sce_get4read i psn bio.nr_sctr x.sce ≡ ok (error, out) s
      → pass_on p (record x { st_read = u32_add x.st_read 1; sce = s }) ≡ r
      → mkrequest_read m p psn bio x ≡ r
  unfolding mkrequest_read
  read_passed m out one lun run e = rw (mkrequest_read, one, lun, run) e

module _ (hash : ℕ → ℕ) (m : Memory) (w : Host) (bio : Bio) (p i : ℕ)
    (d : OnDisk hash w bio.dev p i) where
  abbrev w1 : Host
  w1 = get_hdd p w

  got_lem : w1.hdds p ≡ record (w.hdds p) { nr_ref = more p w }
  got_lem = update_self w.hdds p (record (w.hdds p) { nr_ref = more p w })

  -- A request of no sector, or outside of the bounds, goes on, and the engine is not called.
  pub mkrequest-outside :
      bounded (w.hdds p) bio ≡ false
      → iostash_mkrequest hash m bio w ≡ some (passed, moved p (back p w) w.sce w)
  unfolding iostash_mkrequest
  mkrequest-outside out =
      let to_pass : iostash_mkrequest hash m bio w ≡ pass_on p w1 =
        rw (d.found, iostash_mkrequest, got_lem, d.online, not-false out) refl in
      to_pass ∙ pass_on-moved p (more p w) w.sce w

  to_write :
      bio.write ≡ true
      → bounded (w.hdds p) bio ≡ true
      → iostash_mkrequest hash m bio w ≡ mkrequest_write p (disk_sector bio) bio w1
  unfolding iostash_mkrequest
  to_write dir inside =
      rw (d.found, iostash_mkrequest, got_lem, d.online, not-true inside, dir) refl

  to_read :
      bio.write ≡ false
      → bounded (w.hdds p) bio ≡ true
      → iostash_mkrequest hash m bio w ≡ mkrequest_read m p (disk_sector bio) bio w1
  unfolding iostash_mkrequest
  to_read dir inside = rw (d.found, iostash_mkrequest, got_lem, d.online, not-true inside, dir) refl

  -- A write within the bounds calls `sce_invalidate`, and goes on whatever it answers.
  pub mkrequest-write :
      (s : Sce) (ret : Ret)
      → bio.write ≡ true
      → bounded (w.hdds p) bio ≡ true
      → sce_invalidate i (disk_sector bio) bio.nr_sctr w.sce ≡ ok ret s
      → iostash_mkrequest hash m bio w
        ≡ some (passed, moved p (back p w) s (record w { st_write = u32_add w.st_write 1 }))
  mkrequest-write s ret dir inside run =
      let v : Host = record w { st_write = u32_add w.st_write 1 } in
      to_write dir inside
      ∙ write_passed bio w1 p (disk_sector bio) i s _ ret (ap HddInfo.lun got_lem ∙ d.lun) run
          (pass_on-moved p (more p w) s v)

  inside_read :
      (out : Option Fmap) (s : Sce)
      → bio.write ≡ false
      → bounded (w.hdds p) bio ≡ true
      → one_fragment (disk_sector bio) bio.nr_sctr ≡ true
      → sce_get4read i (disk_sector bio) bio.nr_sctr w.sce ≡ ok (error, out) s
      → iostash_mkrequest hash m bio w
        ≡ some (passed, moved p (back p w) s (record w { st_read = u32_add w.st_read 1 }))
  inside_read out s dir inside one run =
      let v : Host = record w { st_read = u32_add w.st_read 1 } in
      to_read dir inside
      ∙ read_passed bio w1 p (disk_sector bio) i s _ m out one (ap HddInfo.lun got_lem ∙ d.lun) run
          (pass_on-moved p (more p w) s v)

  two_fragments :
      bio.write ≡ false
      → bounded (w.hdds p) bio ≡ true
      → one_fragment (disk_sector bio) bio.nr_sctr ≡ false
      → iostash_mkrequest hash m bio w
        ≡ some (passed, moved p (back p w) w.sce (record w { st_read = u32_add w.st_read 1 }))
  unfolding mkrequest_read
  two_fragments dir inside two =
      let v : Host = record w { st_read = u32_add w.st_read 1 } in
      let to_pass : mkrequest_read m p (disk_sector bio) bio w1
          ≡ pass_on p (moved p (more p w) w.sce v) =
        rw (mkrequest_read, two) refl in
      to_read dir inside ∙ to_pass ∙ pass_on-moved p (more p w) w.sce v

  -- A read that the engine refuses goes on.
  pub mkrequest-miss :
      (out : Option Fmap) (s : Sce)
      → bio.write ≡ false
      → sce_get4read i (disk_sector bio) bio.nr_sctr w.sce ≡ ok (error, out) s
      → (w' : Host) × (iostash_mkrequest hash m bio w ≡ some (passed, w'))
  mkrequest-miss out s dir run = elim (Bool-cases (bounded (w.hdds p) bio)) [
    | inr outside ↦ (_, mkrequest-outside outside)
    | inl inside ↦ elim (Bool-cases (one_fragment (disk_sector bio) bio.nr_sctr)) [
      | inr two ↦ (_, two_fragments dir inside two)
      | inl one ↦ (_, inside_read out s dir inside one run)
    ]
  ]
