-- ===== src/Interface/Config/Devices.antt =====
-- A new cache device: its table replaces the empty one of a free slot.
use mathlib.Core.Path.{subst}
use iostash.Prelude.{
  ℕ, ◌+◌, ◌^◌, ◌≤◌, ◌<◌, ◌≡◌, ◌≢◌, ◌==◌, true, false, arith, ap, ◌∙◌, sym, List, [], ◌∷◌,
  Bool-cases, inl, inr, ==_iff, update, update_self, update_other, update_all, sum_below-change,
}
use iostash.Word.{sce_maxcdev, fragnum_withinfreelist, fragnum_free}
use iostash.State.{Sce, Cdev, Cdevs, Loc, Frag, frag_in}
use iostash.Invariant.Tally.{sum_below-zero}
use iostash.Invariant.{
  Attached, IsFrag, Chain, FreeList, FreeListIn, Inv, Mapped, Holds, InUse, dev_free, is_free,
  free_count, frag_count,
}

-- The fragments of `t` are in `t'` as they are.
pub record Keeps (t t' : Cdevs) : Type 0 where
  pub frag : (l : Loc) → IsFrag t l → IsFrag t' l
  pub same : (l : Loc) → IsFrag t l → frag_in t' l ≡ frag_in t l

Chain-Keeps : (t t' : Cdevs) (h : ℕ) (ls : List Loc) → Keeps t t' → Chain t h ls → Chain t' h ls
Chain-Keeps t t' h [] k c = c
Chain-Keeps t t' h (l ∷ ls) k c =
    let s = k.same l c.1 in
    (
      c.0,
      k.frag l c.1,
      ap Frag.fragnum s ∙ c.2,
      c.3,
      subst (λ n. Chain t' n ls) (sym (ap Frag.next s))
          (Chain-Keeps t t' (frag_in t l).next ls k c.4),
    )

-- Tables that keep the fragments, and have no others in use, keep the invariant.
pub Inv-Keeps :
    (s s' : Sce) (ls ls' : List Loc)
    → Inv s ls
    → FreeList s' ls'
    → s'.luntbl ≡ s.luntbl
    → Attached s'.cdevtbl s'.nr_cdev
    → Keeps s.cdevtbl s'.cdevtbl
    → ((l : Loc)
        → IsFrag s'.cdevtbl l
        → (frag_in s'.cdevtbl l).fragnum < fragnum_free
        → IsFrag s.cdevtbl l)
    → Inv s' ls'
Inv-Keeps s s' ls ls' v list luns devs k old = record {
  list = list;
  mapped =
      subst (λ u. Mapped s'.cdevtbl u) (sym luns)
        (record {
          forward = λ i n hi map hn mapped.
              let (l, m) = v.mapped.forward i n hi map hn mapped in
              (
                l,
                record {
                  frag = k.frag l m.frag;
                  names = m.names;
                  lunidx = ap Frag.lunidx (k.same l m.frag) ∙ m.lunidx;
                  fragnum = ap Frag.fragnum (k.same l m.frag) ∙ m.fragnum;
                },
              );
          backward = λ l f low.
              let same = k.same l (old l f low) in
              subst (λ x. Holds s.luntbl x.lunidx x.fragnum l) (sym same)
                (v.mapped.backward l (old l f low)
                  (subst (λ x. x.fragnum < fragnum_free) same low));
          words = v.mapped.words;
          lengths = v.mapped.lengths;
        });
  used = λ l f low.
      let same = k.same l (old l f low) in
      subst (λ x. InUse x) (sym same)
        (v.used l (old l f low) (subst (λ x. x.fragnum < fragnum_free) same low));
  devices = devs;
}

module _ {t : Cdevs} {head n total : ℕ} {ls : List Loc} (v : FreeListIn t head n total ls) (d : ℕ)
    (c : Cdev) (hd : d < sce_maxcdev) (empty : (t d).has_fragtbl ≡ false) where
  abbrev new : Cdevs
  new = update t d c

  pub no_frags : (t d).nr_frag ≡ 0
  no_frags = elim (Bool-cases ((t d).nr_frag == 0)) [
    | inl e ↦ (==_iff (t d).nr_frag 0).0 e
    | inr ne ↦ let bad : true ≡ false = sym (v.tables d (ground arith)) ∙ empty in cc
  ]

  -- a fragment of the old tables is not of the slot
  pub not_here : (l : Loc) → IsFrag t l → (l.dev == d) ≡ false
  not_here l f = elim (Bool-cases (l.dev == d)) [
    | inr ne ↦ ne
    | inl e ↦
        let bad : true ≡ false =
          sym f.table ∙ ap (λ j. (t j).has_fragtbl) ((==_iff l.dev d).0 e) ∙ empty in
        cc
  ]

  pub Keeps-new : Keeps t new
  Keeps-new = record {
    frag = λ l f.
        let same : new l.dev ≡ t l.dev = update_other t d l.dev c (not_here l f) in
        record {
          dev = f.dev;
          table = ap Cdev.has_fragtbl same ∙ f.table;
          off = subst (λ x. l.off < x.nr_frag) (sym same) f.off;
        };
    same = λ l f. ap (λ x. x.fragtbl l.off) (update_other t d l.dev c (not_here l f));
  }

  pub back_new : (l : Loc) → (l.dev == d) ≡ false → IsFrag new l → IsFrag t l
  back_new l ne f =
      let same : new l.dev ≡ t l.dev = update_other t d l.dev c ne in
      record {
        dev = f.dev;
        table = sym (ap Cdev.has_fragtbl same) ∙ f.table;
        off = subst (λ x. l.off < x.nr_frag) same f.off;
      }

  -- A table without free fragments in the free slot adds its number of fragments.
  pub FreeListIn-new :
      ((o : ℕ) → o < c.nr_frag → (c.fragtbl o).fragnum ≢ fragnum_withinfreelist)
      → c.nr_frag ≤ 2 ^ 24
      → (0 < c.nr_frag → c.has_fragtbl ≡ true)
      → FreeListIn new head n (total + c.nr_frag) ls
  FreeListIn-new filled size table =
      let at_d : new d ≡ c = update_self t d c in
      let old_free : dev_free (t d) ≡ 0 =
        sum_below-zero (t d).nr_frag (λ o. is_free ((t d).fragtbl o))
          (λ o p. absurd (omega (arith, p, no_frags))) in
      let new_free : dev_free (new d) ≡ 0 =
        ap dev_free at_d
        ∙ sum_below-zero c.nr_frag (λ o. is_free (c.fragtbl o))
            (λ o p. ground (arith, filled o p)) in
      let change_free : free_count t + dev_free (new d) ≡ free_count new + dev_free (t d) =
        sum_below-change sce_maxcdev d (λ j. dev_free (t j)) (λ j. dev_free (new j)) hd
          (λ j h. ap dev_free (sym (update_other t d j c h))) in
      let change_count : frag_count t + (new d).nr_frag ≡ frag_count new + (t d).nr_frag =
        sum_below-change sce_maxcdev d (λ j. (t j).nr_frag) (λ j. (new j).nr_frag) hd
          (λ j h. ap Cdev.nr_frag (sym (update_other t d j c h))) in
      record {
        chain = Chain-Keeps t new head ls Keeps-new v.chain;
        complete = λ l f e. elim (Bool-cases (l.dev == d)) [
          | inr ne ↦
              v.complete l (back_new l ne f)
                (sym (ap (λ x. (x.fragtbl l.off).fragnum) (update_other t d l.dev c ne)) ∙ e)
          | inl same ↦
              let here : new l.dev ≡ c = ap new ((==_iff l.dev d).0 same) ∙ at_d in
              absurd (
                filled l.off (subst (λ x. l.off < x.nr_frag) here f.off)
                  (sym (ap (λ x. (x.fragtbl l.off).fragnum) here) ∙ e))
        ];
        length = v.length;
        counted = omega (arith, v.counted, change_free, old_free, new_free);
        total = omega (arith, v.total, change_count, no_frags, ap Cdev.nr_frag at_d);
        sizes = update_all (λ j x. x.nr_frag ≤ 2 ^ 24) t d c size v.sizes;
        tables = update_all (λ j x. 0 < x.nr_frag → x.has_fragtbl ≡ true) t d c table v.tables;
      }
