-- ===== src/FreeList/Stack.antt =====
-- `_freefraglist_put` and `_freefraglist_get` push and pop the free list.
use mathlib.Core.Path.{subst}
use iostash.Prelude.{
  ℕ, suc, ◌-◌, ◌*◌, ◌^◌, ◌≤◌, ◌<◌, ◌≡◌, ◌≢◌, true, false, arith, ◌==◌, ltb, List, [], ◌∷◌, ap, ◌∙◌,
  sym, Bool-cases, inl, inr, some, none, le→ltb, Option-cases,
}
use iostash.Word.{fragnum_withinfreelist, fragnum_free, or_mapped, u32_add, u32_sub}
use iostash.State.{
  Sce, success, error, ok, Cdevs, Loc, at, Frag, frag_at, set_frag, frag_in, set_in, loc_eq,
}
use iostash.State.Access.{
  frag_in-set_in, frag_in-set_self, frag_in-set_other, loc_eq_sym, eq_of_loc_eq, nr_frag-set_in,
  has_fragtbl-set_in,
}
use iostash.Util.{pfid2frag}
use iostash.Invariant.{IsFrag, Points, Chain, has, FreeList, FreeListIn}
use iostash.Invariant.Pfid.{pfid2frag-IsFrag, pfid2frag-Points, Points-or_mapped}
use iostash.Invariant.Count.{
  free_count-set_in, frag_count-set_in, free_count-le, free_count-lt, frag_count-small,
}
use iostash.Invariant.Chain.{
  IsFrag-set_in, IsFrag-of_set_in, Chain-set_in, has-Chain, not-has_of_used,
}
use iostash.FreeList.{freefraglist_put, put_frag, freefraglist_get, take_frag}

-- The fragment as it stands in the list.
abbrev pub linked : Frag → ℕ → Frag
linked f head = record f { fragnum = fragnum_withinfreelist; next = head }

-- The state after a put, and after a get of the list's first fragment.
abbrev pub put_state : (pf : ℕ) → Loc → Sce → Sce
put_state pf l s = record (set_frag l (linked (frag_at s l) s.freefraglist) s) {
  freefraglist = or_mapped pf;
  nr_freefrag = u32_add s.nr_freefrag 1;
}

abbrev pub taken : Frag → Frag
taken f = record f { next = 0; fragnum = fragnum_free }

abbrev pub take_state : Loc → Sce → Sce
take_state l s = record (set_frag l (taken (frag_at s l)) s) {
  freefraglist = (frag_at s l).next;
  nr_freefrag = u32_sub s.nr_freefrag 1;
}

module _ {t : Cdevs} {head n total : ℕ} {ls : List Loc} (v : FreeListIn t head n total ls) where
  -- A fragment that is not in the list leaves room in the counters.
  pub room : (l : Loc) → IsFrag t l → (frag_in t l).fragnum ≢ fragnum_withinfreelist → n < total
  room l f ne = omega (arith, v.counted, v.total, free_count-lt t l f ne)

  pub length_small : n ≤ total
  length_small = omega (arith, v.counted, v.total, free_count-le t)

  pub total_small : total ≤ 16 * 2 ^ 24
  total_small = omega (arith, v.total, frag_count-small t v.sizes)

  -- A write to a fragment that is not free, and stays so, leaves the list as it is.
  pub FreeListIn-write :
      (l : Loc) (f : Frag)
      → IsFrag t l
      → (frag_in t l).fragnum ≢ fragnum_withinfreelist
      → f.fragnum ≢ fragnum_withinfreelist
      → FreeListIn (set_in t l f) head n total ls
  FreeListIn-write l f fl ne ne' = record {
    chain = Chain-set_in t l f head ls (not-has_of_used t l head ls v.chain ne) v.chain;
    complete = λ m fm e. elim (Bool-cases (loc_eq l m)) [
      | inl same ↦
          let here : frag_in (set_in t l f) m ≡ f =
            ap (frag_in (set_in t l f)) (sym (eq_of_loc_eq l m same)) ∙ frag_in-set_self t l f in
          absurd (ne' (sym (ap (λ x. x.fragnum) here) ∙ e))
      | inr other ↦
          v.complete m (IsFrag-of_set_in t l m f fm)
            (sym (ap (λ x. x.fragnum) (frag_in-set_other t l m f other)) ∙ e)
    ];
    length = v.length;
    counted = ground (arith, v.counted, free_count-set_in t l f fl);
    total = v.total ∙ sym (frag_count-set_in t l f);
    sizes = λ d. omega (arith, nr_frag-set_in t l (at d 0) f, v.sizes d);
    tables = λ d h.
        has_fragtbl-set_in t l (at d 0) f
        ∙ v.tables d (omega (arith, nr_frag-set_in t l (at d 0) f));
  }

  FreeListIn-put :
      (pf : ℕ) (l : Loc)
      → IsFrag t l
      → (frag_in t l).fragnum ≢ fragnum_withinfreelist
      → Points pf l
      → FreeListIn (set_in t l (linked (frag_in t l) head)) pf (suc n) total (l ∷ ls)
  FreeListIn-put pf l f ne p =
      let out = not-has_of_used t l head ls v.chain ne in
      let g = linked (frag_in t l) head in
      let same = frag_in-set_self t l g in
      record {
        chain = (
          p,
          IsFrag-set_in t l l g f,
          ap (λ x. x.fragnum) same,
          out,
          subst (λ h. Chain (set_in t l g) h ls) (sym (ap (λ x. x.next) same))
              (Chain-set_in t l g head ls out v.chain),
        );
        complete = λ m fm e. elim (Bool-cases (loc_eq m l)) [
          | inl e' ↦ ground arith
          | inr ne' ↦ rw ne' (
              v.complete m (IsFrag-of_set_in t l m g fm)
                (sym (ap (λ x. x.fragnum) (frag_in-set_other t l m g (loc_eq_sym l m ∙ ne'))) ∙ e))
        ];
        length = omega (arith, v.length);
        counted = ground (arith, v.counted, free_count-set_in t l g f);
        total = v.total ∙ sym (frag_count-set_in t l g);
        sizes = λ d. omega (arith, nr_frag-set_in t l (at d 0) g, v.sizes d);
        tables = λ d h.
            has_fragtbl-set_in t l (at d 0) g
            ∙ v.tables d (omega (arith, nr_frag-set_in t l (at d 0) g));
      }

module _ {t : Cdevs} {head n total : ℕ} {l : Loc} {ls : List Loc}
    (v : FreeListIn t head n total (l ∷ ls)) where
  FreeListIn-take :
      FreeListIn (set_in t l (taken (frag_in t l))) (frag_in t l).next (n - 1) total ls
  FreeListIn-take =
      let c = v.chain in
      let g = taken (frag_in t l) in
      record {
        chain = Chain-set_in t l g (frag_in t l).next ls c.3 c.4;
        complete = λ m fm e. elim (Bool-cases (loc_eq m l)) [
          | inl same ↦
              let here : frag_in (set_in t l g) m ≡ g = frag_in-set_in t l m g ∙ rw same in
              absurd (omega (arith, e, ap (λ x. x.fragnum) here))
          | inr ne ↦
              let out = frag_in-set_other t l m g (loc_eq_sym l m ∙ ne) in
              let old =
                v.complete m (IsFrag-of_set_in t l m g fm) (sym (ap (λ x. x.fragnum) out) ∙ e) in
              ground arith
        ];
        length = omega (arith, v.length);
        counted = ground (arith, v.counted, v.length, free_count-set_in t l g c.1, c.2);
        total = v.total ∙ sym (frag_count-set_in t l g);
        sizes = λ d. omega (arith, nr_frag-set_in t l (at d 0) g, v.sizes d);
        tables = λ d h.
            has_fragtbl-set_in t l (at d 0) g
            ∙ v.tables d (omega (arith, nr_frag-set_in t l (at d 0) g));
      }

module _ (s : Sce) {ls : List Loc} (v : FreeList s ls) where
  -- On a well-formed list `_freefraglist_put` of a 32-bit id that names a fragment which is not in it
  -- succeeds, and the links, the marks and the counter then represent the list with it in front.
  pub freefraglist_put-push :
      (pf : ℕ) (l : Loc)
      → pf < 2 ^ 32
      → pfid2frag s pf ≡ some l
      → (frag_at s l).fragnum ≢ fragnum_withinfreelist
      → (freefraglist_put pf s ≡ ok success (put_state pf l s))
        × FreeList (put_state pf l s) (l ∷ ls)
  unfolding freefraglist_put put_frag
  freefraglist_put-push pf l small e ne =
      let (f, d, o) = pfid2frag-IsFrag s pf l e in
      let used : ((frag_at s l).fragnum == fragnum_withinfreelist) ≡ false = ground arith in
      let free = room v l f ne in
      let most = total_small v in
      let inc : u32_add s.nr_freefrag 1 ≡ suc s.nr_freefrag = omega arith in
      let fits : ltb s.nr_frag (u32_add s.nr_freefrag 1) ≡ false = le→ltb _ _ (omega arith) in
      (
        rw (e, used, fits, freefraglist_put),
        subst
            (λ n.
              FreeListIn (set_in s.cdevtbl l (linked (frag_at s l) s.freefraglist)) (or_mapped pf) n
                s.nr_frag (l ∷ ls))
            (sym inc) (FreeListIn-put v (or_mapped pf) l f ne (Points-or_mapped pf l d o small)),
      )

  -- On a well-formed list `_freefraglist_put` of an id that names no fragment, or one that is in the
  -- list, is an error and changes nothing.
  pub freefraglist_put-error :
      (pf : ℕ)
      → ((l : Loc) → pfid2frag s pf ≡ some l → has l ls ≡ true)
      → freefraglist_put pf s ≡ ok error s
  unfolding freefraglist_put put_frag
  freefraglist_put-error pf h = elim (Option-cases (pfid2frag s pf)) [
    | inl e ↦ rw (e, freefraglist_put)
    | inr (l, e) ↦
        let free = has-Chain s.cdevtbl l s.freefraglist ls v.chain (h l e) in
        let used : ((frag_at s l).fragnum == fragnum_withinfreelist) ≡ true = ground arith in
        rw (e, used, freefraglist_put)
  ]

  -- `_freefraglist_get` fails on the empty list.
  pub freefraglist_get-nil : ls ≡ [] → freefraglist_get s ≡ ok none s
  unfolding freefraglist_get
  freefraglist_get-nil e =
      let empty : s.freefraglist ≡ 0 = subst (Chain s.cdevtbl s.freefraglist) e v.chain in
      let test : (s.freefraglist == 0) ≡ true = ground arith in rw test

-- On a well-formed list that is not empty `_freefraglist_get` returns the head, an id of the first
-- fragment, and leaves a state that represents the rest of the list.
pub freefraglist_get-pop :
    (s : Sce) {l : Loc} {ls : List Loc}
    → FreeList s (l ∷ ls)
    → (freefraglist_get s ≡ ok (some s.freefraglist) (take_state l s))
      × FreeList (take_state l s) ls
      × Points s.freefraglist l
unfolding freefraglist_get take_frag
freefraglist_get-pop s {l} {ls} v =
    let c = v.chain in
    let there : (s.freefraglist == 0) ≡ false = ground (arith, c.0) in
    let most = total_small v in
    let some_free : (s.nr_freefrag == 0) ≡ false = ground (arith, v.length) in
    let dec : u32_sub s.nr_freefrag 1 ≡ s.nr_freefrag - 1 =
      omega (arith, length_small v, v.length) in
    (
      rw (there, pfid2frag-Points s s.freefraglist l c.0 c.1, some_free, freefraglist_get),
      subst
          (λ n.
            FreeListIn (set_in s.cdevtbl l (taken (frag_at s l))) (frag_at s l).next n s.nr_frag ls)
          (sym dec) (FreeListIn-take v),
      c.0,
    )
