-- ===== src/Interface/Config/Loading.antt =====
-- The loop of `sce_addcdev` that puts the fragments of a new device into the free list.
use iostash.Prelude.{
  ℕ, zero, suc, ◌≤◌, ◌<◌, ◌≡◌, ◌≢◌, ◌==◌, true, false, arith, refl, ap, ◌∙◌, sym, List, ◌∷◌,
  Bool-cases, inl, inr,
}
use iostash.Word.{sce_maxcdev, pfid, fragnum_withinfreelist}
use iostash.State.{Sce, Cdevs, ok, Loc, at, Frag, frag_in, set_in, loc_eq}
use iostash.State.Access.{frag_in-set_self, frag_in-set_other, nr_frag-set_in, has_fragtbl-set_in}
use iostash.Invariant.Slots.{has_scehndl-set_in}
use iostash.Invariant.{IsFrag, FreeList}
use iostash.Invariant.Pfid.{pfid2frag-Names}
use iostash.FreeList.Stack.{linked, put_state, freefraglist_put-push}
use iostash.Interface.Config.{put_all}

-- The table `t` once all fragments from `k` on of the device `d` are free, from the table `t1` in which
-- none is.
pub record Loading (t1 : Cdevs) (d k : ℕ) (t : Cdevs) : Type 0 where
  pub sizes : (j : ℕ) → (t j).nr_frag ≡ (t1 j).nr_frag
  pub tables : (j : ℕ) → (t j).has_fragtbl ≡ (t1 j).has_fragtbl
  pub handles : (j : ℕ) → (t j).has_scehndl ≡ (t1 j).has_scehndl
  pub others : (l : Loc) → (l.dev == d) ≡ false → frag_in t l ≡ frag_in t1 l
  pub todo : (o : ℕ) → o < k → (frag_in t (at d o)).fragnum ≢ fragnum_withinfreelist
  pub done :
      (o : ℕ) → k ≤ o → o < (t1 d).nr_frag → (frag_in t (at d o)).fragnum ≡ fragnum_withinfreelist

other_dev : (d k : ℕ) (l : Loc) → (l.dev == d) ≡ false → loc_eq (at d k) l ≡ false
other_dev d k l h = ground arith

other_off : (d k o : ℕ) → (o == k) ≡ false → loc_eq (at d k) (at d o) ≡ false
other_off d k o h = ground arith

Loading-step :
    (t1 : Cdevs) (d k head : ℕ) (t : Cdevs)
    → Loading t1 d (suc k) t
    → Loading t1 d k (set_in t (at d k) (linked (frag_in t (at d k)) head))
Loading-step t1 d k head t v =
    let g = linked (frag_in t (at d k)) head in
    record {
      sizes = λ j. nr_frag-set_in t (at d k) (at j 0) g ∙ v.sizes j;
      tables = λ j. has_fragtbl-set_in t (at d k) (at j 0) g ∙ v.tables j;
      handles = λ j. has_scehndl-set_in t (at d k) g j ∙ v.handles j;
      others = λ l h. frag_in-set_other t (at d k) l g (other_dev d k l h) ∙ v.others l h;
      todo = λ o lt e.
          let same = frag_in-set_other t (at d k) (at d o) g (other_off d k o (ground arith)) in
          v.todo o (omega (arith, lt)) (sym (ap Frag.fragnum same) ∙ e);
      done = λ o le lt. elim (Bool-cases (o == k)) [
        | inl e ↦
            let here : o ≡ k = ground arith in
            ap (λ x. (frag_in (set_in t (at d k) g) (at d x)).fragnum) here
            ∙ ap Frag.fragnum (frag_in-set_self t (at d k) g)
        | inr ne ↦
            ap Frag.fragnum (frag_in-set_other t (at d k) (at d o) g (other_off d k o ne))
            ∙ v.done o (ground arith) lt
      ];
    }

-- The loop frees the fragments that are left and keeps the free list.
pub put_all-Loading :
    (t1 : Cdevs) (d k : ℕ) (s : Sce) (ls : List Loc)
    → d < sce_maxcdev
    → (t1 d).has_fragtbl ≡ true
    → k ≤ (t1 d).nr_frag
    → FreeList s ls
    → Loading t1 d k s.cdevtbl
    → (s' : Sce) × (ls' : List Loc) × (put_all d k s ≡ ok tt s')
      × FreeList s' ls'
      × Loading t1 d 0 s'.cdevtbl
      × (s'.luntbl ≡ s.luntbl)
      × (s'.nr_cdev ≡ s.nr_cdev)
unfolding put_all
put_all-Loading t1 d zero s ls hd ht hk v w = (s, ls, refl, v, w, refl, refl)
put_all-Loading t1 d (suc k) s ls hd ht hk v w =
    let pf = pfid d k in
    let l = at d k in
    let small = v.sizes d in
    let f : IsFrag s.cdevtbl l = record {
      dev = hd;
      table = w.tables d ∙ ht;
      off = omega (arith, hk, w.sizes d);
    } in
    let found = pfid2frag-Names s pf l (omega (arith, hd), omega (arith, hk, w.sizes d, small)) f in
    let (run, v1) = freefraglist_put-push s v pf l (omega arith) found (w.todo k (omega arith)) in
    let s1 = put_state pf l s in
    let (s2, ls2, run2, v2, w2, luns, devs) =
      put_all-Loading t1 d k s1 (l ∷ ls) hd ht (omega (arith, hk)) v1
        (Loading-step t1 d k s.freefraglist s.cdevtbl w) in
    (s2, ls2, rw (run, put_all) run2, v2, w2, luns, devs)
