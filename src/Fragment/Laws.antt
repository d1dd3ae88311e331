-- ===== src/Fragment/Laws.antt =====
-- The bitmap of a fragment and its counter of valid pages, under invalidation.
use iostash.Prelude.{
  ℕ, zero, suc, ◌+◌, ◌-◌, ◌%◌, ◌^◌, ◌≤◌, ◌<◌, ◌≡◌, ◌≢◌, refl, ◌∙◌, Bool, true, false, ◌||◌, arith,
  ltb, ◌==◌, Bool-cases, inl, inr, ap, le→ltb, ==_iff,
}
use iostash.Word.{sce_pageperfrag, u16_sub}
use iostash.State.{Bitmap, Frag, Sce, Loc, ok, frag_at, set_frag}
use iostash.Fragment.{new_frag, frag_invalidate, frag_isvalid}
use iostash.Fragment.Pages.{
  page, within, any_in, clear_in, clear_in-cong, clear_in-add, clear_in-le,
}
use iostash.Fragment.Set.{SetPages, set_bitmap-SetPages}
use iostash.Fragment.Check.{verdict, check_bitmap-any_in}

-- `nr_valid` is the number of pages of the fragment that are not marked invalid.
abbrev pub Counted : Frag → Type 0
Counted f = f.nr_valid ≡ clear_in (page f.bitmap) 0 sce_pageperfrag

clear_in-set : (f : ℕ → Bool) (a n : ℕ) → ((i : ℕ) → i < n → f (a + i) ≡ true) → clear_in f a n ≡ 0
unfolding clear_in
clear_in-set f a zero h = refl
clear_in-set f a (suc n) h =
    let first : f a ≡ true = ap f (omega arith) ∙ h 0 (omega arith) in
    let rest = clear_in-set f (suc a) n (λ i p. ap f (omega arith) ∙ h (suc i) (omega arith)) in
    ground arith

-- Setting a run takes away the clear pages that were in it.
clear_in-set_run :
    (f g : ℕ → Bool) (a n b : ℕ)
    → ((p : ℕ) → g p ≡ (f p || within a n p))
    → clear_in g 0 (a + (n + b)) + clear_in f a n ≡ clear_in f 0 (a + (n + b))
clear_in-set_run f g a n b h =
    let before = clear_in-cong g f 0 0 a (λ i p. h (0 + i) ∙ ground arith) in
    let inside = clear_in-set g a n (λ i p. h (a + i) ∙ ground arith) in
    let after = clear_in-cong g f (a + n) (a + n) b (λ i p. h (a + n + i) ∙ ground arith) in
    let ends : clear_in f (0 + a) (n + b) ≡ clear_in f a (n + b) =
      ap (λ x. clear_in f x (n + b)) (omega arith) in
    let ends' : clear_in g (0 + a) (n + b) ≡ clear_in g a (n + b) =
      ap (λ x. clear_in g x (n + b)) (omega arith) in
    omega (
      arith,
      before,
      inside,
      after,
      ends,
      ends',
      clear_in-add f 0 a (n + b),
      clear_in-add g 0 a (n + b),
      clear_in-add f a n b,
      clear_in-add g a n b,
    )

-- A fragment that `_frag_init` has set up counts its pages correctly.
pub new_frag-Counted : Counted new_frag
unfolding clear_in
new_frag-Counted = refl

-- The counters before and after, over the whole fragment.
set_bitmap-clear_in :
    (bm : Bitmap) (pgnum pgcnt : ℕ) (out : Bitmap × ℕ)
    → pgnum + pgcnt ≤ 256
    → SetPages bm pgnum pgcnt 0 out
    → clear_in (page out.0) 0 256 + out.1 ≡ clear_in (page bm) 0 256
set_bitmap-clear_in bm pgnum pgcnt out h p =
    let run = clear_in-set_run (page bm) (page out.0) pgnum pgcnt (256 - (pgnum + pgcnt)) p.bits in
    let size : pgnum + (pgcnt + (256 - (pgnum + pgcnt))) ≡ 256 = omega arith in
    omega (arith, p.count, run, ap (clear_in (page bm) 0) size, ap (clear_in (page out.0) 0) size)

-- What `_frag_invalidate` makes of a fragment `f`: the run is set, no other page changes, the
-- counter stays exact, the result is the number of pages that were valid, the rest stays.
pub record Invalidated (f : Frag) (pgnum pgcnt : ℕ) (f' : Frag) (n : ℕ) : Type 0 where
  pub pages : (p : ℕ) → page f'.bitmap p ≡ (page f.bitmap p || within pgnum pgcnt p)
  pub counted : Counted f'
  pub result : n ≡ clear_in (page f.bitmap) pgnum pgcnt
  pub rest : f' ≡ record f { bitmap = f'.bitmap; nr_valid = f'.nr_valid }

-- On a run inside a fragment that is not empty, and with an exact counter, `_frag_invalidate` ends
-- normally. It marks exactly the run, keeps the counter exact, returns how many pages of the run were
-- valid, and changes nothing else.
pub frag_invalidate-Invalidated :
    (s : Sce) (l : Loc) (pgnum pgcnt : ℕ)
    → Counted (frag_at s l)
    → pgcnt ≢ 0
    → pgnum + pgcnt ≤ sce_pageperfrag
    → (f : Frag) × (n : ℕ) × (frag_invalidate l pgnum pgcnt s ≡ ok n (set_frag l f s))
      × Invalidated (frag_at s l) pgnum pgcnt f n
unfolding frag_invalidate
frag_invalidate-Invalidated s l pgnum pgcnt c nz h =
    let f = frag_at s l in
    let (out, e, p) = set_bitmap-SetPages f.bitmap pgnum pgcnt in
    let total = set_bitmap-clear_in f.bitmap pgnum pgcnt out h p in
    let small = clear_in-le (page f.bitmap) 0 256 in
    let some_pages : (pgcnt == 0) ≡ false = ground arith in
    let inside : ltb sce_pageperfrag ((pgnum + pgcnt) % 2 ^ 32) ≡ false =
      le→ltb _ _ (omega arith) in
    let enough : ltb f.nr_valid out.1 ≡ false = le→ltb _ _ (omega arith) in
    (
      record f { bitmap = out.0; nr_valid = u16_sub f.nr_valid out.1 },
      out.1,
      rw (some_pages, inside, e, enough),
      record { pages = p.bits; counted = omega arith; result = p.count ∙ omega arith; rest = refl },
    )

-- `_frag_isvalid` succeeds exactly when no page of the run is marked invalid; it changes nothing.
pub frag_isvalid-any_in :
    (s : Sce) (l : Loc) (pgnum pgcnt : ℕ)
    → pgcnt ≢ 0
    → pgnum + pgcnt ≤ sce_pageperfrag
    → frag_isvalid l pgnum pgcnt s ≡ ok (verdict (any_in (page (frag_at s l).bitmap) pgnum pgcnt)) s
unfolding frag_isvalid
frag_isvalid-any_in s l pgnum pgcnt nz h =
    let some_pages : (pgcnt == 0) ≡ false = ground arith in
    let inside : ltb sce_pageperfrag ((pgnum + pgcnt) % 2 ^ 32) ≡ false =
      le→ltb _ _ (omega arith) in
    rw (some_pages, inside, check_bitmap-any_in (frag_at s l).bitmap pgnum pgcnt)

-- Any overlap with pages that are set makes a run invalid.
pub any_in-overlap :
    (f : ℕ → Bool) (a n p : ℕ) → within a n p ≡ true → f p ≡ true → any_in f a n ≡ true
unfolding any_in
any_in-overlap f a zero p h e = absurd (ground arith)
any_in-overlap f a (suc n) p h e = elim (Bool-cases (a == p)) [
  | inl same ↦ ground (arith, ap f ((==_iff a p).0 same))
  | inr ne ↦ ground (arith, any_in-overlap f (suc a) n p (ground arith) e)
]
