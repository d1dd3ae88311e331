-- ===== src/Invariant/Tally.antt =====
-- A complete list of free fragments is as long as the tables have free fragments.
use iostash.Prelude.{
  ℕ, zero, suc, ◌+◌, ◌<◌, ◌≡◌, ◌≢◌, true, refl, ap, ◌∙◌, sym, arith, List, [], ◌∷◌, length,
  Bool-cases, inl, inr, sum_below,
}
use iostash.Word.{sce_maxcdev, fragnum_withinfreelist}
use iostash.State.{Cdevs, Loc, at, Frag, frag_in, set_in, loc_eq}
use iostash.State.Access.{
  frag_in-set_self, frag_in-set_other, eq_of_loc_eq, loc_eq_sym, nr_frag-set_in, has_fragtbl-set_in,
}
use iostash.Invariant.{IsFrag, Chain, has, is_free, dev_free, free_count}
use iostash.Invariant.Count.{free_count-set_in}
use iostash.Invariant.Chain.{Chain-set_in, IsFrag-of_set_in}

pub sum_below-zero : (n : ℕ) (f : ℕ → ℕ) → ((i : ℕ) → i < n → f i ≡ 0) → sum_below n f ≡ 0
unfolding sum_below
sum_below-zero zero f h = refl
sum_below-zero (suc n) f h =
    omega (arith, h n (omega arith), sum_below-zero n f (λ i p. h i (omega arith)))

none_free :
    (t : Cdevs)
    → ((d : ℕ) → 0 < (t d).nr_frag → (t d).has_fragtbl ≡ true)
    → ((l : Loc) → IsFrag t l → (frag_in t l).fragnum ≢ fragnum_withinfreelist)
    → free_count t ≡ 0
none_free t tables h =
    sum_below-zero sce_maxcdev (λ d. dev_free (t d))
      λ d hd.
        sum_below-zero (t d).nr_frag (λ o. is_free ((t d).fragtbl o))
          λ o ho.
            let ne =
              h (at d o) (record { dev = hd; table = tables d (omega (arith, ho)); off = ho }) in
            ground (arith, ne)

abbrev busy : Frag → Frag
busy f = record f { fragnum = 0 }

written : (t : Cdevs) (l m : Loc) (f : Frag) → loc_eq l m ≡ true → frag_in (set_in t l f) m ≡ f
written t l m f same =
    ap (frag_in (set_in t l f)) (sym (eq_of_loc_eq l m same)) ∙ frag_in-set_self t l f

pub length-Chain :
    (t : Cdevs) (h : ℕ) (ls : List Loc)
    → ((d : ℕ) → 0 < (t d).nr_frag → (t d).has_fragtbl ≡ true)
    → Chain t h ls
    → ((l : Loc) → IsFrag t l → (frag_in t l).fragnum ≡ fragnum_withinfreelist → has l ls ≡ true)
    → length ls ≡ free_count t
length-Chain t h [] tables c complete =
    sym (none_free t tables λ l f e. absurd (ground (arith, complete l f e)))
length-Chain t h (l ∷ ls) tables c complete =
    let f = busy (frag_in t l) in
    let t1 = set_in t l f in
    let rest : length ls ≡ free_count t1 =
      length-Chain t1 (frag_in t l).next ls
        (λ d p.
          has_fragtbl-set_in t l (at d 0) f
          ∙ tables d (omega (arith, p, nr_frag-set_in t l (at d 0) f)))
        (Chain-set_in t l f _ ls c.3 c.4)
        (λ m fm e. elim (Bool-cases (loc_eq l m)) [
          | inl same ↦ absurd (omega (arith, e, ap (λ x. x.fragnum) (written t l m f same)))
          | inr ne ↦
              let old =
                complete m (IsFrag-of_set_in t l m f fm)
                  (sym (ap (λ x. x.fragnum) (frag_in-set_other t l m f ne)) ∙ e) in
              ground (arith, loc_eq_sym l m)
        ]) in
    let count : free_count t1 + is_free (frag_in t l) ≡ free_count t + is_free f =
      free_count-set_in t l f c.1 in
    let was : is_free (frag_in t l) ≡ 1 = ground (arith, c.2) in omega (arith, rest, count, was)
