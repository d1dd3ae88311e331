-- ===== src/FreeList/Remove/Gone.antt =====
-- The free list once a device's fragments are out of it and its table is gone.
use mathlib.Core.Path.{subst}
use iostash.Prelude.{
  ℕ, suc, ◌+◌, ◌^◌, ◌≤◌, ◌<◌, ◌≡◌, true, false, refl, ap, ◌∙◌, sym, arith, ◌==◌, none, List, [],
  ◌∷◌, length, Bool-cases, inl, inr, ==_iff, update, update_self, update_other, update_all,
  sum_below-change, sum_below-cong, lt→ltb,
}
use iostash.Word.{sce_maxcdev, fragnum_withinfreelist, u32_sub}
use iostash.State.{Sce, success, ok, Cdevs, Cdev, Loc, Frag, frag_in, loc_eq}
use iostash.Cdev.{no_cdev}
use iostash.Invariant.{IsFrag, Chain, has, FreeList, FreeListIn, frag_count}
use iostash.Invariant.Tally.{length-Chain}
use iostash.FreeList.{freefraglist_rmcdev}
use iostash.FreeList.Stack.{length_small, total_small}
use iostash.FreeList.Remove.{Removed, without, IsFrag-of_Relinked, rmcdev_loop-Removed}

-- In the invariant the loop ends within its fuel.
pub freefraglist_rmcdev-Removed :
    (s : Sce) (ls : List Loc) (d : ℕ)
    → FreeList s ls
    → d < sce_maxcdev
    → (s' : Sce) × (freefraglist_rmcdev d s ≡ ok success s') × Removed d none ls s s'
unfolding freefraglist_rmcdev
freefraglist_rmcdev-Removed s ls d v hd =
    let small : s.nr_freefrag < 2 ^ 32 = omega (arith, length_small v, total_small v) in
    let (s', run, r) =
      rmcdev_loop-Removed ls d (suc s.nr_freefrag) s.freefraglist none s (omega (arith, v.length))
        (omega (arith, v.length)) small v.chain refl refl in
    (s', rw (lt→ltb d sce_maxcdev hd, run, freefraglist_rmcdev) refl, r)

has-without :
    (d : ℕ) (a : Loc) (ls : List Loc)
    → (a.dev == d) ≡ false
    → has a ls ≡ true
    → has a (without d ls) ≡ true
has-without d a [] ne h = h
has-without d a (l ∷ ls) ne h = elim (Bool-cases (l.dev == d)) [
  | inl e ↦ rw e (has-without d a ls ne (ground arith))
  | inr other ↦ rw other (elim (Bool-cases (loc_eq a l)) [
    | inl same ↦ rw same refl
    | inr apart ↦ rw apart (has-without d a ls ne (ground arith))
  ])
]

module _ (t : Cdevs) (d : ℕ) where
  abbrev pub gone : Cdevs
  gone = update t d no_cdev

  pub gone_same : (l : Loc) → (l.dev == d) ≡ false → gone l.dev ≡ t l.dev
  gone_same l ne = update_other t d l.dev no_cdev ne

  pub IsFrag-gone : (l : Loc) → (l.dev == d) ≡ false → IsFrag t l → IsFrag gone l
  IsFrag-gone l ne f =
      let same = gone_same l ne in
      record {
        dev = f.dev;
        table = ap Cdev.has_fragtbl same ∙ f.table;
        off = subst (λ x. l.off < x.nr_frag) (sym same) f.off;
      }

  -- A fragment that is left was one of another device.
  pub IsFrag-of_gone : (l : Loc) → IsFrag gone l → ((l.dev == d) ≡ false) × IsFrag t l
  IsFrag-of_gone l f = elim (Bool-cases (l.dev == d)) [
    | inl e ↦
        let here : gone l.dev ≡ no_cdev =
          ap gone ((==_iff l.dev d).0 e) ∙ update_self t d no_cdev in
        absurd (omega (arith, f.off, ap Cdev.nr_frag here))
    | inr ne ↦
        let same = gone_same l ne in
        (
          ne,
          record {
            dev = f.dev;
            table = sym (ap Cdev.has_fragtbl same) ∙ f.table;
            off = subst (λ x. l.off < x.nr_frag) same f.off;
          },
        )
  ]

  pub frag_in-gone : (l : Loc) → (l.dev == d) ≡ false → frag_in gone l ≡ frag_in t l
  frag_in-gone l ne = ap (λ x. x.fragtbl l.off) (gone_same l ne)

  Chain-gone : (h : ℕ) (ls : List Loc) → Chain t h (without d ls) → Chain gone h (without d ls)
  Chain-gone h [] c = c
  Chain-gone h (l ∷ ls) c = elim (Bool-cases (l.dev == d)) [
    | inl e ↦ rw e (Chain-gone h ls (rw e at c))
    | inr ne ↦
        let c' : Chain t h (l ∷ without d ls) = rw ne at c in
        let same = frag_in-gone l ne in
        rw ne (
          c'.0,
          IsFrag-gone l ne c'.1,
          ap Frag.fragnum same ∙ c'.2,
          c'.3,
          subst (λ n. Chain gone n (without d ls)) (sym (ap Frag.next same))
              (Chain-gone (frag_in t l).next ls c'.4),
        )
  ]

-- The list without the device, in the tables without it.
pub FreeListIn-gone :
    (s s' : Sce) (ls : List Loc) (d : ℕ)
    → FreeList s ls
    → d < sce_maxcdev
    → Removed d none ls s s'
    → FreeListIn
        (gone s'.cdevtbl d)
        s'.freefraglist
        s'.nr_freefrag
        (u32_sub s.nr_frag (s'.cdevtbl d).nr_frag)
        (without d ls)
FreeListIn-gone s s' ls d v hd r =
    let t = s'.cdevtbl in
    let chain = Chain-gone t d s'.freefraglist ls r.chain in
    let sizes : (j : ℕ) → (gone t d j).nr_frag ≤ 2 ^ 24 =
      update_all (λ j x. x.nr_frag ≤ 2 ^ 24) t d no_cdev (omega arith)
        (λ j. omega (arith, r.tables.sizes j, v.sizes j)) in
    let tables : (j : ℕ) → 0 < (gone t d j).nr_frag → (gone t d j).has_fragtbl ≡ true =
      update_all (λ j x. 0 < x.nr_frag → x.has_fragtbl ≡ true) t d no_cdev
        (λ p. absurd (omega arith))
        (λ j p. r.tables.tables j ∙ v.tables j (omega (arith, p, r.tables.sizes j))) in
    let kept : s'.nr_freefrag ≡ length (without d ls) = omega (arith, r.count, v.length) in
    let change : frag_count t + (gone t d d).nr_frag ≡ frag_count (gone t d) + (t d).nr_frag =
      sum_below-change sce_maxcdev d (λ j. (t j).nr_frag) (λ j. (gone t d j).nr_frag) hd
        (λ j h. ap Cdev.nr_frag (sym (update_other t d j no_cdev h))) in
    let same_count : frag_count t ≡ frag_count s.cdevtbl =
      sum_below-cong sce_maxcdev (λ j. (t j).nr_frag) (λ j. (s.cdevtbl j).nr_frag)
        (λ j h. r.tables.sizes j) in
    record {
      chain = chain;
      complete = complete;
      length = kept;
      counted = kept ∙ length-Chain (gone t d) s'.freefraglist (without d ls) tables chain complete;
      total = omega (
        arith,
        change,
        same_count,
        v.total,
        total_small v,
        ap Cdev.nr_frag (update_self t d no_cdev),
      );
      sizes = sizes;
      tables = tables;
    }
  where
    complete :
        (l : Loc)
        → IsFrag (gone s'.cdevtbl d) l
        → (frag_in (gone s'.cdevtbl d) l).fragnum ≡ fragnum_withinfreelist
        → has l (without d ls) ≡ true
    complete l f e =
        let (ne, f') = IsFrag-of_gone s'.cdevtbl d l f in
        let same : (frag_in (gone s'.cdevtbl d) l).fragnum ≡ (frag_in s.cdevtbl l).fragnum =
          ap Frag.fragnum (frag_in-gone s'.cdevtbl d l ne) ∙ ap Frag.fragnum (r.tables.same l) in
        has-without d l ls ne
          (v.complete l (IsFrag-of_Relinked s.cdevtbl s'.cdevtbl l r.tables f') (sym same ∙ e))
