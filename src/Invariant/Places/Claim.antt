-- ===== src/Invariant/Places/Claim.antt =====
-- The mapping after a fragment gets a place.
use mathlib.Core.Path.{subst}
use iostash.Prelude.{
  ℕ, ◌^◌, ◌≤◌, ◌<◌, ◌≡◌, true, false, arith, ap, ap₂, ◌∙◌, sym, Bool-cases, inl, inr,
}
use mathlib.Core.Bool.{false≢true}
use iostash.Word.{sce_maxlun, fragnum_free, is_mapped, pfid_dev, pfid_off}
use iostash.State.{Cdevs, Luns, Loc, Frag, frag_in, set_in, desc_in, set_desc_in, loc_eq}
use iostash.State.Access.{frag_in-set_self, frag_in-set_other, eq_of_loc_eq}
use iostash.Invariant.{IsFrag, Names, Holds, MapsTo, Mapped}
use iostash.Invariant.Chain.{IsFrag-set_in, IsFrag-of_set_in}
use iostash.Invariant.Places.{
  at_place, desc_in-set, has_fragmap-set, has_scehndl-set, nr_frag-set, Sized-set, at_place_eq,
  MapsTo-other, Holds-other, forward_old,
}

module _ {t : Cdevs} {u : Luns} (v : Mapped t u) where
  -- A place that is not mapped gets a fragment that is not in use.
  pub Mapped-claim :
      (i n d : ℕ) (l : Loc) (f : Frag)
      → i < sce_maxlun
      → (u i).has_fragmap ≡ true
      → (u i).has_scehndl ≡ true
      → n < (u i).nr_frag
      → is_mapped (desc_in u i n) ≡ false
      → IsFrag t l
      → fragnum_free ≤ (frag_in t l).fragnum
      → f.lunidx ≡ i
      → f.fragnum ≡ n
      → is_mapped d ≡ true
      → Names d l
      → d < 2 ^ 32
      → Mapped (set_in t l f) (set_desc_in u i n d)
  Mapped-claim i n d l f hi hm hh hn un fl spare fi fn md nd small =
      let new : desc_in (set_desc_in u i n d) i n ≡ d = desc_in-set u i n d i n ∙ ground arith in
      let self = frag_in-set_self t l f in
      let names : Names (desc_in (set_desc_in u i n d) i n) l =
        (ap pfid_dev new ∙ nd.0, ap pfid_off new ∙ nd.1) in
      record {
        forward = λ j m a b c e. elim (Bool-cases (at_place i n j m)) [
          | inl here ↦
              let (ej, em) = at_place_eq i n j m here in
              subst (λ x. (k : Loc) × MapsTo (set_in t l f) (set_desc_in u i n d) x m k) (sym ej)
                (subst (λ x. (k : Loc) × MapsTo (set_in t l f) (set_desc_in u i n d) i x k) (sym em)
                  (
                    l,
                    record {
                      frag = IsFrag-set_in t l l f fl;
                      names = names;
                      lunidx = ap (λ x. x.lunidx) self ∙ fi;
                      fragnum = ap (λ x. x.fragnum) self ∙ fn;
                    },
                  ))
          | inr ne ↦
              let (k, h) = forward_old v i n d j m ne a b c e in
              elim (Bool-cases (loc_eq l k)) [
                | inl same ↦ absurd (
                    omega (
                      arith,
                      ap (λ x. (frag_in t x).fragnum) (eq_of_loc_eq l k same),
                      h.fragnum,
                      nr_frag-set u i n d j,
                      (v.lengths j).small,
                    ))
                | inr other ↦ (k, MapsTo-other t u i n d l f j m k ne other h)
              ]
        ];
        backward = λ k fk h. elim (Bool-cases (loc_eq l k)) [
          | inl same ↦
              let there : Holds (set_desc_in u i n d) i n l = record {
                index = hi;
                map = has_fragmap-set u i n d i ∙ hm;
                handle = has_scehndl-set u i n d i ∙ hh;
                fragnum = omega (arith, hn, nr_frag-set u i n d i);
                mapped = ap is_mapped new ∙ md;
                names = names;
              } in
              let own =
                subst (λ g. Holds (set_desc_in u i n d) g.lunidx g.fragnum l) (sym self)
                  (subst (λ x. Holds (set_desc_in u i n d) x f.fragnum l) (sym fi)
                    (subst (λ x. Holds (set_desc_in u i n d) i x l) (sym fn) there)) in
              subst
                (λ x.
                  Holds (set_desc_in u i n d) (frag_in (set_in t l f) x).lunidx
                    (frag_in (set_in t l f) x).fragnum x)
                (eq_of_loc_eq l k same) own
          | inr other ↦
              let keep = ap (λ x. x.fragnum) (frag_in-set_other t l k f other) in
              let was = v.backward k (IsFrag-of_set_in t l k f fk) (omega arith) in
              elim (Bool-cases (at_place i n (frag_in t k).lunidx (frag_in t k).fragnum)) [
                | inl here ↦
                    let (ej, em) = at_place_eq i n _ _ here in
                    absurd (
                      false≢true (sym un ∙ sym (ap is_mapped (ap₂ (desc_in u) ej em)) ∙ was.mapped))
                | inr ne ↦ Holds-other t u i n d l f k ne other was
              ]
        ];
        words = λ j m. ground (arith, desc_in-set u i n d j m, v.words j m);
        lengths = λ j. Sized-set u i n d j (v.lengths j);
      }
