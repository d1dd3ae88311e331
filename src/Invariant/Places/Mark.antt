-- ===== src/Invariant/Places/Mark.antt =====
-- The mapping after a descriptor changes in its flags only.
use iostash.Prelude.{ℕ, ◌^◌, ◌<◌, ◌≡◌, true, arith, ap, ap₂, ◌∙◌, sym, Bool-cases, inl, inr}
use iostash.Word.{is_mapped, pfid_dev, pfid_off}
use iostash.State.{Cdevs, Luns, frag_in, desc_in, set_desc_in}
use iostash.Invariant.{Mapped}
use iostash.Invariant.Places.{
  at_place, desc_in-set, has_fragmap-set, has_scehndl-set, nr_frag-set, Sized-set, at_place_eq,
}

module _ {t : Cdevs} {u : Luns} (v : Mapped t u) where
  -- A descriptor may change as long as it stays mapped to its fragment, or not mapped.
  pub Mapped-mark :
      (i n d : ℕ)
      → is_mapped d ≡ is_mapped (desc_in u i n)
      → (is_mapped d ≡ true
          → (pfid_dev d ≡ pfid_dev (desc_in u i n)) × (pfid_off d ≡ pfid_off (desc_in u i n)))
      → d < 2 ^ 32
      → Mapped t (set_desc_in u i n d)
  Mapped-mark i n d em ed small = record {
    forward = λ j m a b c e.
        let (em', ed') = marked j m in
        let (k, h) =
          v.forward j m a (sym (has_fragmap-set u i n d j) ∙ b)
            (omega (arith, c, nr_frag-set u i n d j)) (sym em' ∙ e) in
        let (dev, off) = ed' e in
        (
          k,
          record {
            frag = h.frag;
            names = (dev ∙ h.names.0, off ∙ h.names.1);
            lunidx = h.lunidx;
            fragnum = h.fragnum;
          },
        );
    backward = λ k fk h.
        let was = v.backward k fk h in
        let (em', ed') = marked (frag_in t k).lunidx (frag_in t k).fragnum in
        let (dev, off) = ed' (em' ∙ was.mapped) in
        record {
          index = was.index;
          map = has_fragmap-set u i n d _ ∙ was.map;
          handle = has_scehndl-set u i n d _ ∙ was.handle;
          fragnum = omega (arith, was.fragnum, nr_frag-set u i n d (frag_in t k).lunidx);
          mapped = em' ∙ was.mapped;
          names = (dev ∙ was.names.0, off ∙ was.names.1);
        };
    words = λ j m. ground (arith, desc_in-set u i n d j m, v.words j m);
    lengths = λ j. Sized-set u i n d j (v.lengths j);
  }
    where
      marked :
          (j m : ℕ)
          → (is_mapped (desc_in (set_desc_in u i n d) j m) ≡ is_mapped (desc_in u j m))
            × (is_mapped (desc_in (set_desc_in u i n d) j m) ≡ true
                → (pfid_dev (desc_in (set_desc_in u i n d) j m) ≡ pfid_dev (desc_in u j m))
                  × (pfid_off (desc_in (set_desc_in u i n d) j m) ≡ pfid_off (desc_in u j m)))
      marked j m = elim (Bool-cases (at_place i n j m)) [
        | inl here ↦
            let (ej, em') = at_place_eq i n j m here in
            let new : desc_in (set_desc_in u i n d) j m ≡ d = desc_in-set u i n d j m ∙ rw here in
            let old : desc_in u i n ≡ desc_in u j m = ap₂ (desc_in u) (sym ej) (sym em') in
            (
              ap is_mapped new ∙ em ∙ ap is_mapped old,
              λ e.
                  let (p, q) = ed (sym (ap is_mapped new) ∙ e) in
                  (ap pfid_dev new ∙ p ∙ ap pfid_dev old, ap pfid_off new ∙ q ∙ ap pfid_off old),
            )
        | inr ne ↦
            let same : desc_in (set_desc_in u i n d) j m ≡ desc_in u j m =
              desc_in-set u i n d j m ∙ rw ne in
            (ap is_mapped same, λ e. (ap pfid_dev same, ap pfid_off same))
      ]
