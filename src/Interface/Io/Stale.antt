-- ===== src/Interface/Io/Stale.antt =====
-- A write and a read after it: the cache serves no data that the write has changed.
use mathlib.Core.Path.{subst}
use iostash.Prelude.{
  ℕ, ◌+◌, ◌/◌, ◌%◌, ◌≤◌, ◌<◌, ◌≡◌, true, false, arith, refl, ap, ◌∙◌, sym, List, Option,
}
use iostash.Word.{sce_maxlun}
use iostash.State.{Sce, Ret, success, error, ok, Loc, desc_in}
use iostash.Util.{Fmap}
use iostash.Fragment.Pages.{within}
use iostash.Invariant.{Inv}
use iostash.Invariant.Pfid.{pfid2frag-Names}
use iostash.Invariant.Ages.{Dirty, DirtyAt}
use iostash.Interface.Io.{lock_lun, page_frag, page_off, page_count, sce_get4read, sce_invalidate}
use iostash.Interface.Io.Pages.{Request, first_lem, count_lem}
use iostash.Interface.Io.Write.{sce_invalidate-Dirty}
use iostash.Interface.Io.Read.{Hit, ReadEnd, hit, miss, sce_get4read-ReadEnd}

module _ (s : Sce) (ls : List Loc) (i sctrnum nr_sctr x : ℕ) (v : Inv s ls)
    (r : Request sctrnum nr_sctr) (from : sctrnum ≤ x) (to : x < sctrnum + nr_sctr) where
  within_lem : (a n p : ℕ) → a ≤ p → p < a + n → within a n p ≡ true
  within_lem a n p u w = ground (arith, u, w)

  -- A page that a hit needs is not dirty.
  Hit-Dirty : (l : Loc) (s' : Sce) → Hit s i sctrnum nr_sctr l s' → Dirty s i (x / 8) → true ≡ false
  Hit-Dirty l s' h d =
      let z = v.mapped.lengths i in
      let first = first_lem (s.luntbl i) sctrnum nr_sctr r h.locked z in
      let count = count_lem (s.luntbl i) sctrnum nr_sctr r h.locked z in
      let place : x / 8 / 256 ≡ page_frag sctrnum =
        omega (arith, first, count, h.one_frag, h.locked.some_sctrs) in
      let inside : within (page_off sctrnum) (page_count sctrnum nr_sctr) (x / 8 % 256) ≡ true =
        within_lem (page_off sctrnum) (page_count sctrnum nr_sctr) (x / 8 % 256)
          (omega (arith, first, count, h.one_frag, h.locked.some_sctrs))
          (omega (arith, first, count, h.one_frag, h.locked.some_sctrs)) in
      let d' : DirtyAt s i (page_frag sctrnum) (x / 8 % 256) =
        subst (λ n. DirtyAt s i n (x / 8 % 256)) place d in
      sym (
        d' h.mapped l
          (pfid2frag-Names s (desc_in s.luntbl i (page_frag sctrnum)) l h.maps.names h.maps.frag))
      ∙ h.clean (x / 8 % 256) inside

  read_of_Dirty :
      (out : Ret × Option Fmap) (s' : Sce)
      → ReadEnd s i sctrnum nr_sctr out s'
      → Dirty s i (x / 8)
      → out.0 ≡ error
  read_of_Dirty _ _ (hit l s' h) d = let bad = Hit-Dirty l s' h d in cc
  read_of_Dirty _ _ (miss out s') d = refl

-- Under the invariant, after `sce_invalidate` for a write that passes `_lock_lun`, `sce_get4read` of any
-- request on the same LUN that shares a sector with the write is an error, so the read goes to the
-- disk. Neither request wraps.
pub sce_get4read-sce_invalidate :
    (s : Sce) (ls : List Loc) (i : ℕ) (wrote wr_sctr reads rd_sctr x : ℕ)
    → Inv s ls
    → i < sce_maxlun
    → Request wrote wr_sctr
    → lock_lun (s.luntbl i) wrote wr_sctr true ≡ true
    → Request reads rd_sctr
    → (wrote ≤ x) × (x < wrote + wr_sctr)
    → (reads ≤ x) × (x < reads + rd_sctr)
    → (s' : Sce) × (out : Option Fmap) × (s'' : Sce) × (sce_invalidate i wrote wr_sctr s
        ≡ ok success s')
      × (sce_get4read i reads rd_sctr s' ≡ ok (error, out) s'')
sce_get4read-sce_invalidate s ls i wrote wr_sctr reads rd_sctr x v hi w locked r (a, b) (c, d) =
    let (s', ls', run, k, dirty) = sce_invalidate-Dirty s ls i wrote wr_sctr v hi w locked in
    let (out, s'', run', inv, e) = sce_get4read-ReadEnd s' ls' i reads rd_sctr k.inv hi r in
    let refused = read_of_Dirty s' ls' i reads rd_sctr x k.inv r c d out s'' e (dirty x a b) in
    (s', out.1, s'', run, run' ∙ ap (λ q. ok (q, out.1) s'') refused)
