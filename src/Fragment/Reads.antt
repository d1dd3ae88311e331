-- ===== src/Fragment/Reads.antt =====
-- `_frag_isvalid`, the test that a read makes, after a `_frag_invalidate`, the mark that a write makes.
use iostash.Prelude.{ℕ, ◌+◌, ◌≤◌, ◌≡◌, ◌≢◌, true, false, arith, ap, ◌∙◌}
use iostash.Word.{sce_pageperfrag}
use iostash.State.{Sce, Loc, Frag, frag_at, set_frag, Ret, error, ok}
use iostash.State.Access.{frag_in-set_self}
use iostash.Fragment.{frag_invalidate, frag_isvalid}
use iostash.Fragment.Pages.{page, within, any_in, any_in-cong}
use iostash.Fragment.Check.{verdict}
use iostash.Fragment.Laws.{
  Counted, frag_invalidate-Invalidated, frag_isvalid-any_in, any_in-overlap,
}

-- the two runs of pages have a page in common
abbrev pub Overlap : (a c b d : ℕ) → Type 0
Overlap a c b d = (p : ℕ) × (within a c p ≡ true) × (within b d p ≡ true)

module _ (s : Sce) (l : Loc) (a c b d : ℕ) (counted : Counted (frag_at s l)) (some_written : c ≢ 0)
    (written_fits : a + c ≤ sce_pageperfrag) (some_read : d ≢ 0)
    (read_fits : b + d ≤ sce_pageperfrag) where
  -- For two runs inside a fragment that are not empty and share a page, and a fragment whose counter is
  -- exact: after `_frag_invalidate` of the one, `_frag_isvalid` refuses the other.
  pub frag_isvalid-frag_invalidate :
      Overlap a c b d
      → (f : Frag) × (n : ℕ) × (frag_invalidate l a c s ≡ ok n (set_frag l f s))
        × (frag_isvalid l b d (set_frag l f s) ≡ ok error (set_frag l f s))
  frag_isvalid-frag_invalidate (p, wrote, reads) =
      let (f, n, run, inv) =
        frag_invalidate-Invalidated s l a c counted some_written written_fits in
      let self = frag_in-set_self s.cdevtbl l f in
      let set : page f.bitmap p ≡ true = inv.pages p ∙ ground (arith, wrote) in
      let bad : any_in (page (frag_at (set_frag l f s) l).bitmap) b d ≡ true =
        ap (λ g. any_in (page g.bitmap) b d) self
        ∙ any_in-overlap (page f.bitmap) b d p reads set in
      (
        f,
        n,
        run,
        frag_isvalid-any_in (set_frag l f s) l b d some_read read_fits
            ∙ ap (λ x. ok (verdict x) (set_frag l f s)) bad,
      )

  -- For two such runs that share no page, `_frag_invalidate` of the one does not change the answer of
  -- `_frag_isvalid` for the other.
  pub frag_isvalid-frag_invalidate_other :
      ((p : ℕ) → within b d p ≡ true → within a c p ≡ false)
      → (f : Frag) × (n : ℕ) × (ret : Ret) × (frag_invalidate l a c s ≡ ok n (set_frag l f s))
        × (frag_isvalid l b d s ≡ ok ret s)
        × (frag_isvalid l b d (set_frag l f s) ≡ ok ret (set_frag l f s))
  frag_isvalid-frag_invalidate_other apart =
      let (f, n, run, inv) =
        frag_invalidate-Invalidated s l a c counted some_written written_fits in
      let self = frag_in-set_self s.cdevtbl l f in
      let same : any_in (page f.bitmap) b d ≡ any_in (page (frag_at s l).bitmap) b d =
        any_in-cong (page f.bitmap) (page (frag_at s l).bitmap) b b d
          (λ i h. inv.pages (b + i) ∙ ground (arith, apart (b + i) (ground arith))) in
      let now = ap (λ g. any_in (page g.bitmap) b d) self ∙ same in
      (
        f,
        n,
        verdict (any_in (page (frag_at s l).bitmap) b d),
        run,
        frag_isvalid-any_in s l b d some_read read_fits,
        frag_isvalid-any_in (set_frag l f s) l b d some_read read_fits
            ∙ ap (λ x. ok (verdict x) (set_frag l f s)) now,
      )
