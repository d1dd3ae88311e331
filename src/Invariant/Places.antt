-- ===== src/Invariant/Places.antt =====
-- The mapping under writes to fragments and descriptors.
pub mod Release
pub mod Claim
pub mod Mark
use mathlib.Core.Path.{subst}
use iostash.Prelude.{
  ℕ, ◌^◌, ◌≤◌, ◌<◌, ◌≡◌, Bool, true, false, ◌&&◌, arith, if◌then◌else◌, ◌==◌, refl, ap, ap₂, ◌∙◌,
  sym, Bool-cases, inl, inr,
}
use mathlib.Core.Bool.{false≢true}
use iostash.Word.{sce_maxlun, fragnum_free, is_mapped, pfid_dev, pfid_off}
use iostash.State.{Cdevs, Luns, Loc, Frag, frag_in, set_in, desc_in, set_desc_in, loc_eq}
use iostash.State.Access.{frag_in-set_in, frag_in-set_self, frag_in-set_other, eq_of_loc_eq}
use iostash.Invariant.{IsFrag, Names, Holds, MapsTo, Mapped, Sized, AllInUse, InUse}
use iostash.Invariant.Chain.{IsFrag-set_in, IsFrag-of_set_in}

abbrev pub at_place : ℕ → ℕ → ℕ → ℕ → Bool
at_place i n j m = (j == i) && (m == n)

module _ (u : Luns) (i n d : ℕ) where
  pub desc_in-set :
      (j m : ℕ)
      → desc_in (set_desc_in u i n d) j m ≡ (if at_place i n j m then d else desc_in u j m)
  desc_in-set j m = ground arith

  pub has_fragmap-set : (j : ℕ) → (set_desc_in u i n d j).has_fragmap ≡ (u j).has_fragmap
  has_fragmap-set j = ground arith

  pub has_scehndl-set : (j : ℕ) → (set_desc_in u i n d j).has_scehndl ≡ (u j).has_scehndl
  has_scehndl-set j = ground arith

  pub nr_frag-set : (j : ℕ) → (set_desc_in u i n d j).nr_frag ≡ (u j).nr_frag
  nr_frag-set j = ground arith

  pub Sized-set : (j : ℕ) → Sized (u j) → Sized (set_desc_in u i n d j)
  Sized-set j h = ground (arith, h.small, h.fits, h.covers)

  -- Another place still holds what it held.
  pub Holds-set :
      (j m : ℕ) (l : Loc)
      → at_place i n j m ≡ false
      → Holds u j m l
      → Holds (set_desc_in u i n d) j m l
  Holds-set j m l ne h =
      let same : desc_in (set_desc_in u i n d) j m ≡ desc_in u j m = desc_in-set j m ∙ rw ne in
      record {
        index = h.index;
        map = has_fragmap-set j ∙ h.map;
        handle = has_scehndl-set j ∙ h.handle;
        fragnum = omega (arith, h.fragnum, nr_frag-set j);
        mapped = ap is_mapped same ∙ h.mapped;
        names = (ap pfid_dev same ∙ h.names.0, ap pfid_off same ∙ h.names.1);
      }

pub Names-unique : (d : ℕ) (a b : Loc) → Names d a → Names d b → loc_eq a b ≡ true
Names-unique d a b p q = ground arith

pub at_place_eq : (i n j m : ℕ) → at_place i n j m ≡ true → (j ≡ i) × (m ≡ n)
at_place_eq i n j m e = ground arith

pub at_place_ne : (i n j m : ℕ) → at_place i n j m ≡ false → j ≡ i → m ≡ n → ⊥
at_place_ne i n j m e p q = ground arith

module _ (t : Cdevs) (u : Luns) (i n d : ℕ) (l : Loc) (f : Frag) where
  -- What does not touch the place or the fragment stays.
  pub MapsTo-other :
      (j m : ℕ) (k : Loc)
      → at_place i n j m ≡ false
      → loc_eq l k ≡ false
      → MapsTo t u j m k
      → MapsTo (set_in t l f) (set_desc_in u i n d) j m k
  MapsTo-other j m k ne out h =
      let same : desc_in (set_desc_in u i n d) j m ≡ desc_in u j m =
        desc_in-set u i n d j m ∙ rw ne in
      let keep = frag_in-set_other t l k f out in
      record {
        frag = IsFrag-set_in t l k f h.frag;
        names = (ap pfid_dev same ∙ h.names.0, ap pfid_off same ∙ h.names.1);
        lunidx = ap (λ x. x.lunidx) keep ∙ h.lunidx;
        fragnum = ap (λ x. x.fragnum) keep ∙ h.fragnum;
      }

  pub Holds-other :
      (k : Loc)
      → at_place i n (frag_in t k).lunidx (frag_in t k).fragnum ≡ false
      → loc_eq l k ≡ false
      → Holds u (frag_in t k).lunidx (frag_in t k).fragnum k
      → Holds
          (set_desc_in u i n d)
          (frag_in (set_in t l f) k).lunidx
          (frag_in (set_in t l f) k).fragnum
          k
  Holds-other k ne out h =
      subst (λ g. Holds (set_desc_in u i n d) g.lunidx g.fragnum k)
        (sym (frag_in-set_other t l k f out))
        (Holds-set u i n d (frag_in t k).lunidx (frag_in t k).fragnum k ne h)

pub Holds-unique :
    (u : Luns) (i n j m : ℕ) (k l : Loc)
    → Holds u j m k
    → at_place i n j m ≡ true
    → Names (desc_in u i n) l
    → loc_eq l k ≡ true
Holds-unique u i n j m k l h e nl =
    let (ej, em) = at_place_eq i n j m e in
    let same : desc_in u j m ≡ desc_in u i n = ap₂ (desc_in u) ej em in
    Names-unique (desc_in u i n) l k nl
      (sym (ap pfid_dev same) ∙ h.names.0, sym (ap pfid_off same) ∙ h.names.1)

module _ {t : Cdevs} {u : Luns} (v : Mapped t u) where
  -- A fragment that keeps its back pointer may change.
  pub Mapped-write :
      (l : Loc) (f : Frag)
      → f.lunidx ≡ (frag_in t l).lunidx
      → f.fragnum ≡ (frag_in t l).fragnum
      → Mapped (set_in t l f) u
  Mapped-write l f el ef = record {
    forward = λ i n a b c d.
        let (m, h) = v.forward i n a b c d in
        (
          m,
          record {
            frag = IsFrag-set_in t l m f h.frag;
            names = h.names;
            lunidx = lun m ∙ h.lunidx;
            fragnum = num m ∙ h.fragnum;
          },
        );
    backward = λ m fm h.
        let old = v.backward m (IsFrag-of_set_in t l m f fm) (omega (arith, num m)) in
        subst (λ x. Holds u x (frag_in (set_in t l f) m).fragnum m) (sym (lun m))
          (subst (λ x. Holds u (frag_in t m).lunidx x m) (sym (num m)) old);
    words = v.words;
    lengths = v.lengths;
  }
    where
      lun : (m : Loc) → (frag_in (set_in t l f) m).lunidx ≡ (frag_in t m).lunidx
      lun m = elim (Bool-cases (loc_eq m l)) [
        | inl e ↦
            ap (λ x. x.lunidx) (frag_in-set_in t l m f)
            ∙ rw e el
            ∙ ap (λ x. (frag_in t x).lunidx) (sym (eq_of_loc_eq m l e))
        | inr ne ↦ ap (λ x. x.lunidx) (frag_in-set_in t l m f) ∙ rw ne refl
      ]

      num : (m : Loc) → (frag_in (set_in t l f) m).fragnum ≡ (frag_in t m).fragnum
      num m = elim (Bool-cases (loc_eq m l)) [
        | inl e ↦
            ap (λ x. x.fragnum) (frag_in-set_in t l m f)
            ∙ rw e ef
            ∙ ap (λ x. (frag_in t x).fragnum) (sym (eq_of_loc_eq m l e))
        | inr ne ↦ ap (λ x. x.fragnum) (frag_in-set_in t l m f) ∙ rw ne refl
      ]

  -- The old mapping of a place that is not written.
  pub forward_old :
      (i n d j m : ℕ)
      → at_place i n j m ≡ false
      → j < sce_maxlun
      → (set_desc_in u i n d j).has_fragmap ≡ true
      → m < (set_desc_in u i n d j).nr_frag
      → is_mapped (desc_in (set_desc_in u i n d) j m) ≡ true
      → (k : Loc) × MapsTo t u j m k
  forward_old i n d j m ne a b c e =
      v.forward j m a (sym (has_fragmap-set u i n d j) ∙ b)
        (omega (arith, c, nr_frag-set u i n d j))
        (sym (ap is_mapped (desc_in-set u i n d j m ∙ rw ne)) ∙ e)

pub AllInUse-write :
    (t : Cdevs) (l : Loc) (f : Frag)
    → AllInUse t
    → (f.fragnum < fragnum_free → InUse f)
    → AllInUse (set_in t l f)
AllInUse-write t l f v h m fm e = elim (Bool-cases (loc_eq l m)) [
  | inl same ↦
      let here : frag_in (set_in t l f) m ≡ f =
        ap (frag_in (set_in t l f)) (sym (eq_of_loc_eq l m same)) ∙ frag_in-set_self t l f in
      subst InUse (sym here) (h (omega (arith, ap (λ x. x.fragnum) here)))
  | inr ne ↦
      let keep = frag_in-set_other t l m f ne in
      subst InUse (sym keep)
        (v m (IsFrag-of_set_in t l m f fm) (omega (arith, ap (λ x. x.fragnum) keep)))
]
