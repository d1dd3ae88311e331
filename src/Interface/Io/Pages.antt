-- ===== src/Interface/Io/Pages.antt =====
-- The pages of a request, and what `_lock_lun` checks of it.
use iostash.Prelude.{ℕ, ◌+◌, ◌-◌, ◌*◌, ◌/◌, ◌^◌, ◌≤◌, ◌<◌, ◌≡◌, ◌≢◌, Bool, true, false, arith}
use iostash.State.{Lun}
use iostash.Fragment.Pages.{within}
use iostash.Invariant.{Sized}
use iostash.Interface.Io.{lock_lun, page_frag, page_off, page_count}

-- A request of at most 2 ^ 32 sectors whose end does not wrap.
pub record Request (sctrnum nr_sctr : ℕ) : Type 0 where
  pub no_wrap : sctrnum + nr_sctr < 2 ^ 64
  pub width : nr_sctr < 2 ^ 32

-- What a request that passes `_lock_lun` knows.
pub record Locked (l : Lun) (sctrnum nr_sctr : ℕ) : Type 0 where
  pub has_scehndl : l.has_scehndl ≡ true
  pub has_fragmap : l.has_fragmap ≡ true
  pub some_sctrs : nr_sctr ≢ 0
  pub inside : sctrnum + nr_sctr ≤ l.nr_sctr

pub lock_lun-Locked :
    (l : Lun) (sctrnum nr_sctr : ℕ) (svcchk : Bool)
    → Request sctrnum nr_sctr
    → lock_lun l sctrnum nr_sctr svcchk ≡ true
    → Locked l sctrnum nr_sctr
lock_lun-Locked l sctrnum nr_sctr svcchk r h = record {
  has_scehndl = ground (arith, h);
  has_fragmap = ground (arith, h);
  some_sctrs = ground (arith, h);
  inside = ground (arith, h, r.no_wrap);
}

pub lock_lun-stays :
    (l : Lun) (sctrnum nr_sctr : ℕ)
    → lock_lun l sctrnum nr_sctr true ≡ true
    → l.waiting4deletion ≡ false
lock_lun-stays l sctrnum nr_sctr h = ground (arith, h)

module _ (l : Lun) (sctrnum nr_sctr : ℕ) (r : Request sctrnum nr_sctr)
    (k : Locked l sctrnum nr_sctr) (z : Sized l) where
  -- the pages of the request, as fragment and offset of the first, and their count
  pub first_lem : page_frag sctrnum * 256 + page_off sctrnum ≡ sctrnum / 8
  first_lem = omega (arith, k.inside, z.covers, z.small)

  pub count_lem : page_count sctrnum nr_sctr ≡ (sctrnum + nr_sctr - 1) / 8 + 1 - sctrnum / 8
  count_lem = omega (arith, k.inside, k.some_sctrs, z.covers, z.small, r.width, r.no_wrap)

  pub pages_fit :
      page_frag sctrnum * 256 + page_off sctrnum + page_count sctrnum nr_sctr ≤ l.nr_frag * 256
  pages_fit = omega (arith, first_lem, count_lem, k.inside, k.some_sctrs, z.covers)

  pub frag_fit : page_frag sctrnum < l.nr_frag
  frag_fit = omega (arith, first_lem, k.inside, k.some_sctrs, z.covers)

  pub some_pages : page_count sctrnum nr_sctr ≢ 0
  some_pages = omega (arith, count_lem, k.some_sctrs)

  -- the page of a sector of the request
  pub page_within :
      (x : ℕ)
      → sctrnum ≤ x
      → x < sctrnum + nr_sctr
      → within (page_frag sctrnum * 256 + page_off sctrnum) (page_count sctrnum nr_sctr) (x / 8)
        ≡ true
  page_within x a b =
      let first : page_frag sctrnum * 256 + page_off sctrnum ≤ x / 8 = omega (arith, first_lem) in
      let last : x / 8 < page_frag sctrnum * 256 + page_off sctrnum + page_count sctrnum nr_sctr =
        omega (arith, first_lem, count_lem) in
      within_lem _ _ _ first last
    where
      within_lem : (s n p : ℕ) → s ≤ p → p < s + n → within s n p ≡ true
      within_lem s n p u v = ground (arith, u, v)
