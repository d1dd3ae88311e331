-- ===== src/Invariant/Places/Release.antt =====
-- The mapping after a fragment leaves its place.
use iostash.Prelude.{ℕ, ◌^◌, ◌≤◌, ◌<◌, ◌≡◌, false, arith, ap, ◌∙◌, sym, Bool-cases, inl, inr}
use mathlib.Core.Bool.{false≢true}
use iostash.Word.{fragnum_free, is_mapped}
use iostash.State.{Cdevs, Luns, Loc, Frag, frag_in, set_in, desc_in, set_desc_in, loc_eq}
use iostash.State.Access.{frag_in-set_self, frag_in-set_other, eq_of_loc_eq}
use iostash.Invariant.{MapsTo, Mapped}
use iostash.Invariant.Chain.{IsFrag-of_set_in}
use iostash.Invariant.Places.{
  at_place, desc_in-set, Sized-set, at_place_ne, MapsTo-other, Holds-other, Holds-unique,
  forward_old,
}

module _ {t : Cdevs} {u : Luns} (v : Mapped t u) where
  -- The mapping goes: the descriptor is cleared and the fragment is no longer in use.
  pub Mapped-release :
      (i n d : ℕ) (l : Loc) (f : Frag)
      → MapsTo t u i n l
      → fragnum_free ≤ f.fragnum
      → is_mapped d ≡ false
      → d < 2 ^ 32
      → Mapped (set_in t l f) (set_desc_in u i n d)
  Mapped-release i n d l f old gone out small = record {
    forward = λ j m a b c e. elim (Bool-cases (at_place i n j m)) [
      | inl here ↦
          let new : desc_in (set_desc_in u i n d) j m ≡ d = desc_in-set u i n d j m ∙ rw here in
          absurd (false≢true (sym out ∙ sym (ap is_mapped new) ∙ e))
      | inr ne ↦
          let (k, h) = forward_old v i n d j m ne a b c e in
          elim (Bool-cases (loc_eq l k)) [
            | inl same ↦
                let back = ap (frag_in t) (eq_of_loc_eq l k same) in
                absurd (
                  at_place_ne i n j m ne (sym h.lunidx ∙ sym (ap (λ x. x.lunidx) back) ∙ old.lunidx)
                    (sym h.fragnum ∙ sym (ap (λ x. x.fragnum) back) ∙ old.fragnum))
            | inr other ↦ (k, MapsTo-other t u i n d l f j m k ne other h)
          ]
    ];
    backward = λ k fk h. elim (Bool-cases (loc_eq l k)) [
      | inl same ↦
          let new =
            ap (λ x. (frag_in (set_in t l f) x).fragnum) (sym (eq_of_loc_eq l k same))
            ∙ ap (λ x. x.fragnum) (frag_in-set_self t l f) in
          absurd (omega arith)
      | inr other ↦
          let keep = ap (λ x. x.fragnum) (frag_in-set_other t l k f other) in
          let was = v.backward k (IsFrag-of_set_in t l k f fk) (omega arith) in
          elim (Bool-cases (at_place i n (frag_in t k).lunidx (frag_in t k).fragnum)) [
            | inl here ↦
                absurd (false≢true (sym other ∙ Holds-unique u i n _ _ k l was here old.names))
            | inr ne ↦ Holds-other t u i n d l f k ne other was
          ]
    ];
    words = λ j m. ground (arith, desc_in-set u i n d j m, v.words j m);
    lengths = λ j. Sized-set u i n d j (v.lengths j);
  }
