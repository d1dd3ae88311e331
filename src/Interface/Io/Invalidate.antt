-- ===== src/Interface/Io/Invalidate.antt =====
-- `sce_invalidate`: the write path marks every page that it touches.
use mathlib.Core.Path.{subst}
use iostash.Prelude.{
  ℕ, zero, suc, ◌+◌, ◌-◌, ◌*◌, ◌/◌, ◌%◌, ◌≤◌, ◌<◌, ◌≡◌, ◌≢◌, true, false, arith, refl, ap, ◌∙◌, sym,
  List, Bool-cases, inl, inr, ltb, min, ◌⊎◌, lt→ltb,
}
use iostash.Word.{
  sce_maxlun, is_mapped, is_valid, fragnum_free, sce_pageperfrag, sce_sctrperpage, u64_sub,
}
use iostash.State.{Sce, ok, Loc, Frag, frag_at, set_frag, desc_in, set_lun}
use iostash.State.Access.{frag_in-set_self}
use iostash.Fragment.{frag_invalidate}
use iostash.Fragment.Pages.{page, within}
use iostash.Fragment.Laws.{frag_invalidate-Invalidated}
use iostash.Lun.Gc.{lun_gc-Kept}
use iostash.Mapping.Total.{Kept}
use iostash.Invariant.{Inv, MapsTo}
use iostash.Invariant.Chain.{IsFrag-set_in}
use iostash.Invariant.Pfid.{pfid2frag-Names}
use iostash.Invariant.Frame.{Inv-write, Inv-set_lun}
use iostash.Invariant.Ages.{
  Ages-refl, Ages-trans, Ages-frag, Ages-lun, DirtyAt, Dirty, DirtyAt-Ages,
}
use iostash.Interface.Io.{invalidate_loc, invalidate_loop}

abbrev count_valid : (i n : ℕ) → Sce → Sce
count_valid i n s =
    let u = s.luntbl i in
    set_lun i
      (record u {
        stats = record (u.stats) {
          valid_sctrs = u64_sub u.stats.valid_sctrs (n * sce_sctrperpage);
        };
      })
      s

count_valid-Kept : (s : Sce) (ls : List Loc) (i n : ℕ) → Inv s ls → Kept s (count_valid i n s) ls
count_valid-Kept s ls i n v = record {
  inv = Inv-set_lun s v i _ (record {
    fragmap = refl;
    has_fragmap = refl;
    has_scehndl = refl;
    nr_frag = refl;
    nr_sctr = refl;
  });
  ages = Ages-lun s i _ refl (record {
    has_fragmap = refl;
    has_scehndl = refl;
    nr_frag = refl;
    nr_sctr = refl;
    waiting4deletion = refl;
  });
}

pub Kept-trans : (a b c : Sce) (ls ls' : List Loc) → Kept a b ls → Kept b c ls' → Kept a c ls'
Kept-trans a b c ls ls' p q = record { inv = q.inv; ages = Ages-trans a b c p.ages q.ages }

-- The fragment after `_frag_invalidate`.
frag_written :
    (s : Sce) (ls : List Loc) (i n pgoff pgcnt : ℕ) (l : Loc)
    → Inv s ls
    → MapsTo s.cdevtbl s.luntbl i n l
    → n < fragnum_free
    → pgcnt ≢ 0
    → pgoff + pgcnt ≤ sce_pageperfrag
    → (f : Frag) × (k : ℕ) × (frag_invalidate l pgoff pgcnt s ≡ ok k (set_frag l f s))
      × Kept s (set_frag l f s) ls
      × ((p : ℕ) → within pgoff pgcnt p ≡ true → DirtyAt (set_frag l f s) i n p)
frag_written s ls i n pgoff pgcnt l v m small some_pages fit =
    let low : (frag_at s l).fragnum < fragnum_free = omega (arith, m.fragnum) in
    let use_ = v.used l m.frag low in
    let (f, k, run, inv) = frag_invalidate-Invalidated s l pgoff pgcnt use_.pages some_pages fit in
    let s1 = set_frag l f s in
    let fl1 = IsFrag-set_in s.cdevtbl l l f m.frag in
    (
      f,
      k,
      run,
      record {
        inv =
            Inv-write s v l f m.frag low (ap (λ g. g.lunidx) inv.rest)
              (ap (λ g. g.fragnum) inv.rest)
              (record { pages = inv.counted; next = ap (λ g. g.next) inv.rest ∙ use_.next });
        ages = Ages-frag s l f (λ p h. inv.pages p ∙ ground (arith, h));
      },
      λ p inside mapped l' found.
          let there = pfid2frag-Names s1 (desc_in s.luntbl i n) l m.names fl1 in
          let same : l ≡ l' = cc in
          subst (λ x. page (frag_at s1 x).bitmap p ≡ true) same
            (ap (λ g. page g.bitmap p) (frag_in-set_self s.cdevtbl l f)
              ∙ inv.pages p
              ∙ ground (arith, inside)),
    )

-- One fragment: the pages of the run are dirty afterwards.
invalidate_loc-Kept :
    (s : Sce) (ls : List Loc) (i n fdesc pgoff pgcnt : ℕ) (l : Loc)
    → Inv s ls
    → i < sce_maxlun
    → (s.luntbl i).waiting4deletion ≡ false
    → MapsTo s.cdevtbl s.luntbl i n l
    → n < fragnum_free
    → pgcnt ≢ 0
    → pgoff + pgcnt ≤ sce_pageperfrag
    → (s' : Sce) × (ls' : List Loc) × (invalidate_loc i fdesc pgoff pgcnt l s ≡ ok tt s')
      × Kept s s' ls'
      × ((p : ℕ) → within pgoff pgcnt p ≡ true → DirtyAt s' i n p)
unfolding invalidate_loc
invalidate_loc-Kept s ls i n fdesc pgoff pgcnt l v hi stays m small some_pages fit =
    let (f, k, run, kept, dirty) = frag_written s ls i n pgoff pgcnt l v m small some_pages fit in
    let s1 = set_frag l f s in
    let s2 = count_valid i k s1 in
    let kept1 = count_valid-Kept s1 ls i k kept.inv in
    let kept2 = Kept-trans s s1 s2 ls ls kept kept1 in
    elim (Bool-cases (is_valid fdesc)) [
      | inl e ↦
          let (s3, ls3, gc, kept3) =
            lun_gc-Kept s2 ls i l kept2.inv hi ((kept2.ages.lun i).waiting4deletion ∙ stays) in
          (
            s3,
            ls3,
            rw (run, e, gc, invalidate_loc),
            Kept-trans s s2 s3 ls ls3 kept2 kept3,
            λ p h. DirtyAt-Ages s1 s3 i n p (Ages-trans s1 s2 s3 kept1.ages kept3.ages) (dirty p h),
          )
      | inr ne ↦ (
        s2,
        ls,
        rw (run, ne, invalidate_loc),
        kept2,
        λ p h. DirtyAt-Ages s1 s2 i n p kept1.ages (dirty p h),
      )
    ]

-- A page of the run lies in its first fragment, or in the run that is left.
page_cases :
    (n pgoff count q : ℕ)
    → pgoff < 256
    → within (n * 256 + pgoff) count q ≡ true
    → ((q / 256 ≡ n) × (within pgoff (min (256 - pgoff) count) (q % 256) ≡ true))
      ⊎ (within ((n + 1) * 256 + 0) (count - min (256 - pgoff) count) q ≡ true)
page_cases n pgoff count q small h = elim (Bool-cases (ltb q ((n + 1) * 256))) [
  | inl e ↦ inl (ground (arith, e, h), ground (arith, e, h))
  | inr e ↦ inr (ground (arith, e, h))
]

Dirty-At : (s : Sce) (i n q : ℕ) → q / 256 ≡ n → DirtyAt s i n (q % 256) → Dirty s i q
Dirty-At s i n q e d = subst (λ x. DirtyAt s i x (q % 256)) (sym e) d

-- The loop marks all pages of the run.
pub invalidate_loop-Dirty :
    (fuel : ℕ) (s : Sce) (ls : List Loc) (i n pgoff count wh : ℕ)
    → Inv s ls
    → i < sce_maxlun
    → (s.luntbl i).waiting4deletion ≡ false
    → (s.luntbl i).has_fragmap ≡ true
    → pgoff < 256
    → n * 256 + pgoff + count ≤ (s.luntbl i).nr_frag * 256
    → count ≤ fuel
    → (out : ℕ) × (s' : Sce) × (ls' : List Loc) × (invalidate_loop fuel i n pgoff count wh s
        ≡ ok out s')
      × Kept s s' ls'
      × ((q : ℕ) → within (n * 256 + pgoff) count q ≡ true → Dirty s' i q)
unfolding invalidate_loop
invalidate_loop-Dirty fuel s ls i n pgoff zero wh v hi stays map small fit enough =
    (wh, s, ls, refl, record { inv = v; ages = Ages-refl s }, λ q h. absurd (ground (arith, h)))
invalidate_loop-Dirty zero s ls i n pgoff (suc count) wh v hi stays map small fit enough =
    absurd (omega arith)
invalidate_loop-Dirty (suc fuel) s ls i n pgoff (suc count) wh v hi stays map small fit enough =
    let pgcnt : ℕ = min (256 - pgoff) (suc count) in
    let some_pages : pgcnt ≢ 0 = ground arith in
    let in_map : n < (s.luntbl i).nr_frag = omega arith in
    let in_map_test : ltb n (s.luntbl i).nr_frag ≡ true = lt→ltb _ _ in_map in
    elim (Bool-cases (is_mapped (desc_in s.luntbl i n))) [
      | inr un ↦
          let (out, s', ls', run, k, d) =
            invalidate_loop-Dirty fuel s ls i (n + 1) 0 (suc count - pgcnt) wh v hi stays map
              (omega arith) (ground arith) (ground arith) in
          (
            out,
            s',
            ls',
            rw (in_map_test, un, invalidate_loop) run,
            k,
            λ q h. elim (page_cases n pgoff (suc count) q small h) [
              | inl (e, p) ↦ Dirty-At s' i n q e (
                  DirtyAt-Ages s s' i n (q % 256) k.ages
                    (λ mapped l f. let same : true ≡ false = sym mapped ∙ un in cc))
              | inr later ↦ d q later
            ],
          )
      | inl mapped ↦
          let (l, m) = v.mapped.forward i n hi map in_map mapped in
          let found = pfid2frag-Names s (desc_in s.luntbl i n) l m.names m.frag in
          let (s1, ls1, run1, k1, d1) =
            invalidate_loc-Kept s ls i n (desc_in s.luntbl i n) pgoff pgcnt l v hi stays m
              (omega (arith, (v.mapped.lengths i).small)) some_pages (ground arith) in
          let same = k1.ages.lun i in
          let (out, s', ls', run, k, d) =
            invalidate_loop-Dirty fuel s1 ls1 i (n + 1) 0 (suc count - pgcnt) (wh + 1) k1.inv hi
              (same.waiting4deletion ∙ stays) (same.has_fragmap ∙ map) (omega arith)
              (ground (arith, same.nr_frag)) (ground arith) in
          (
            out,
            s',
            ls',
            rw (in_map_test, mapped, found, run1, invalidate_loop) run,
            Kept-trans s s1 s' ls1 ls' k1 k,
            λ q h. elim (page_cases n pgoff (suc count) q small h) [
              | inl (e, p) ↦
                  Dirty-At s' i n q e (DirtyAt-Ages s1 s' i n (q % 256) k.ages (d1 (q % 256) p))
              | inr later ↦ d q later
            ],
          )
    ]
