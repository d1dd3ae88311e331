-- ===== src/Interface/Io/Write.antt =====
-- `sce_invalidate` as a whole.
use iostash.Prelude.{
  ℕ, ◌+◌, ◌/◌, ◌%◌, ◌≤◌, ◌<◌, ◌≡◌, true, arith, refl, ◌∙◌, List, Bool-cases, inl, inr, ◌==◌,
}
use iostash.Word.{sce_maxlun, u64_add}
use iostash.State.{Sce, LunStats, success, ok, Loc, set_lun}
use iostash.Mapping.Total.{Kept}
use iostash.Invariant.{Inv}
use iostash.Invariant.Frame.{Inv-set_lun}
use iostash.Invariant.Ages.{Ages-lun, Dirty, DirtyAt-Ages}
use iostash.Interface.Io.{lock_lun, page_frag, page_off, page_count, sce_invalidate}
use iostash.Interface.Io.Pages.{Request, lock_lun-Locked, lock_lun-stays, pages_fit, page_within}
use iostash.Interface.Io.Invalidate.{invalidate_loop-Dirty, Kept-trans}

-- The statistics of a LUN are read by nothing.
abbrev pub set_stats : ℕ → LunStats → Sce → Sce
set_stats i t s = set_lun i (record (s.luntbl i) { stats = t }) s

pub set_stats-Kept :
    (s : Sce) (ls : List Loc) (i : ℕ) (t : LunStats) → Inv s ls → Kept s (set_stats i t s) ls
set_stats-Kept s ls i t v = record {
  inv = Inv-set_lun s v i _ (record {
    fragmap = refl;
    has_fragmap = refl;
    has_scehndl = refl;
    nr_frag = refl;
    nr_sctr = refl;
  });
  ages = Ages-lun s i _ refl (record {
    has_fragmap = refl;
    has_scehndl = refl;
    nr_frag = refl;
    nr_sctr = refl;
    waiting4deletion = refl;
  });
}

-- Under the invariant, `sce_invalidate` of a request that passes `_lock_lun` and does not wrap
-- succeeds, keeps the invariant, and brings no new data into the cache. Afterwards no page that the
-- request touches is both cached and valid.
pub sce_invalidate-Dirty :
    (s : Sce) (ls : List Loc) (i sctrnum nr_sctr : ℕ)
    → Inv s ls
    → i < sce_maxlun
    → Request sctrnum nr_sctr
    → lock_lun (s.luntbl i) sctrnum nr_sctr true ≡ true
    → (s' : Sce) × (ls' : List Loc) × (sce_invalidate i sctrnum nr_sctr s ≡ ok success s')
      × Kept s s' ls'
      × ((x : ℕ) → sctrnum ≤ x → x < sctrnum + nr_sctr → Dirty s' i (x / 8))
unfolding sce_invalidate
sce_invalidate-Dirty s ls i sctrnum nr_sctr v hi r locked =
    let k = lock_lun-Locked (s.luntbl i) sctrnum nr_sctr true r locked in
    let z = v.mapped.lengths i in
    let t = (s.luntbl i).stats in
    let t1 : LunStats = record t {
      writes = u64_add t.writes 1;
      write_sctrs = u64_add t.write_sctrs nr_sctr;
    } in
    let s1 = set_stats i t1 s in
    let k1 = set_stats-Kept s ls i t1 v in
    let same = k1.ages.lun i in
    let (wh, s2, ls2, run, k2, dirty) =
      invalidate_loop-Dirty (page_count sctrnum nr_sctr) s1 ls i (page_frag sctrnum)
        (page_off sctrnum) (page_count sctrnum nr_sctr) 0 k1.inv hi
        (same.waiting4deletion ∙ lock_lun-stays (s.luntbl i) sctrnum nr_sctr locked)
        (same.has_fragmap ∙ k.has_fragmap) (omega arith)
        (omega (arith, pages_fit (s.luntbl i) sctrnum nr_sctr r k z, same.nr_frag)) (omega arith) in
    let t2 = (s2.luntbl i).stats in
    let hits : LunStats = record t2 { write_hits = u64_add t2.write_hits 1 } in
    let k3 = set_stats-Kept s2 ls2 i hits k2.inv in
    let k12 = Kept-trans s s1 s2 ls ls2 k1 k2 in
    elim (Bool-cases (wh == 0)) [
      | inl none_hit ↦ (
        s2,
        ls2,
        rw (locked, run, none_hit, sce_invalidate),
        k12,
        λ x a b. dirty (x / 8) (page_within (s.luntbl i) sctrnum nr_sctr r k z x a b),
      )
      | inr some_hit ↦ (
        set_stats i hits s2,
        ls2,
        rw (locked, run, some_hit, sce_invalidate),
        Kept-trans s s2 (set_stats i hits s2) ls2 ls2 k12 k3,
        λ x a b.
            DirtyAt-Ages s2 (set_stats i hits s2) i (x / 8 / 256) (x / 8 % 256) k3.ages
              (dirty (x / 8) (page_within (s.luntbl i) sctrnum nr_sctr r k z x a b)),
      )
    ]
