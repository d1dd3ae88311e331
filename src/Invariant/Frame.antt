-- ===== src/Invariant/Frame.antt =====
-- The invariant under changes that leave the list and the mapping as they are.
use mathlib.Core.Path.{subst}
use iostash.Prelude.{
  ℕ, ◌≤◌, ◌<◌, ◌≡◌, false, arith, refl, ap, ◌∙◌, sym, Bool-cases, inl, inr, List, ◌==◌, update,
  ==_iff, update_self, update_other,
}
use iostash.Word.{fragnum_free, is_mapped, pfid_dev, pfid_off}
use iostash.State.{
  Sce, Cdevs, Luns, Lun, Loc, Frag, frag_in, frag_at, set_frag, set_in, desc_in, loc_eq, set_lun,
}
use iostash.State.Access.{frag_in-set_self, frag_in-set_other, eq_of_loc_eq}
use iostash.Invariant.Slots.{Attached-set_in}
use iostash.Invariant.{IsFrag, Holds, Mapped, InUse, Inv}
use iostash.Invariant.Chain.{IsFrag-set_in, IsFrag-of_set_in}
use iostash.Invariant.Places.{Mapped-write, AllInUse-write}
use iostash.FreeList.Stack.{FreeListIn-write}

-- What the mapping reads of a LUN is the same.
pub record SameMap (a b : Lun) : Type 0 where
  pub fragmap : a.fragmap ≡ b.fragmap
  pub has_fragmap : a.has_fragmap ≡ b.has_fragmap
  pub has_scehndl : a.has_scehndl ≡ b.has_scehndl
  pub nr_frag : a.nr_frag ≡ b.nr_frag
  pub nr_sctr : a.nr_sctr ≡ b.nr_sctr

pub SameMap-refl : (l : Lun) → SameMap l l
SameMap-refl l = record {
  fragmap = refl;
  has_fragmap = refl;
  has_scehndl = refl;
  nr_frag = refl;
  nr_sctr = refl;
}

module _ {t : Cdevs} {u : Luns} (v : Mapped t u) where
  pub Mapped-same : (u' : Luns) → ((j : ℕ) → SameMap (u' j) (u j)) → Mapped t u'
  Mapped-same u' h = record {
    forward = λ j m a b c e.
        let s = h j in
        let d : desc_in u' j m ≡ desc_in u j m = ap (λ f. f m) s.fragmap in
        let (l, x) =
          v.forward j m a (sym s.has_fragmap ∙ b) (omega (arith, s.nr_frag))
            (sym (ap is_mapped d) ∙ e) in
        (
          l,
          record {
            frag = x.frag;
            names = (ap pfid_dev d ∙ x.names.0, ap pfid_off d ∙ x.names.1);
            lunidx = x.lunidx;
            fragnum = x.fragnum;
          },
        );
    backward = λ l fl e.
        let x = v.backward l fl e in
        let s = h (frag_in t l).lunidx in
        let d : desc_in u' (frag_in t l).lunidx (frag_in t l).fragnum
            ≡ desc_in u (frag_in t l).lunidx (frag_in t l).fragnum =
          ap (λ f. f (frag_in t l).fragnum) s.fragmap in
        record {
          index = x.index;
          map = s.has_fragmap ∙ x.map;
          handle = s.has_scehndl ∙ x.handle;
          fragnum = omega (arith, x.fragnum, s.nr_frag);
          mapped = ap is_mapped d ∙ x.mapped;
          names = (ap pfid_dev d ∙ x.names.0, ap pfid_off d ∙ x.names.1);
        };
    words = λ j m. omega (arith, v.words j m, ap (λ f. f m) (h j).fragmap);
    lengths = λ j.
        let s = h j in
        let z = v.lengths j in
        record {
          small = omega (arith, z.small, s.nr_frag);
          fits = omega (arith, z.fits, s.nr_frag, s.nr_sctr);
          covers = omega (arith, z.covers, s.nr_frag, s.nr_sctr);
        };
  }

  -- A fragment that is not in use may change as long as it stays so.
  pub Mapped-spare :
      (l : Loc) (f : Frag)
      → fragnum_free ≤ (frag_in t l).fragnum
      → fragnum_free ≤ f.fragnum
      → Mapped (set_in t l f) u
  Mapped-spare l f old new = record {
    forward = λ j m a b c e.
        let (k, x) = v.forward j m a b c e in
        let small = (v.lengths j).small in
        let other : loc_eq l k ≡ false = elim (Bool-cases (loc_eq l k)) [
          | inl same ↦
              absurd
                (omega (arith, x.fragnum, ap (λ y. (frag_in t y).fragnum) (eq_of_loc_eq l k same)))
          | inr ne ↦ ne
        ] in
        let keep = frag_in-set_other t l k f other in
        (
          k,
          record {
            frag = IsFrag-set_in t l k f x.frag;
            names = x.names;
            lunidx = ap (λ y. y.lunidx) keep ∙ x.lunidx;
            fragnum = ap (λ y. y.fragnum) keep ∙ x.fragnum;
          },
        );
    backward = λ k fk h. elim (Bool-cases (loc_eq l k)) [
      | inl same ↦ absurd (
          omega (
            arith,
            ap (λ y. (frag_in (set_in t l f) y).fragnum) (eq_of_loc_eq l k same),
            ap (λ y. y.fragnum) (frag_in-set_self t l f),
          ))
      | inr other ↦
          let keep = frag_in-set_other t l k f other in
          subst (λ y. Holds u y.lunidx y.fragnum k) (sym keep)
            (v.backward k (IsFrag-of_set_in t l k f fk) (omega (arith, ap (λ y. y.fragnum) keep)))
    ];
    words = v.words;
    lengths = v.lengths;
  }

module _ (s : Sce) {ls : List Loc} (v : Inv s ls) where
  -- A fragment in use may change in all but its back pointer.
  pub Inv-write :
      (l : Loc) (f : Frag)
      → IsFrag s.cdevtbl l
      → (frag_at s l).fragnum < fragnum_free
      → f.lunidx ≡ (frag_at s l).lunidx
      → f.fragnum ≡ (frag_at s l).fragnum
      → InUse f
      → Inv (set_frag l f s) ls
  Inv-write l f fl low el en ok = record {
    list = FreeListIn-write v.list l f fl (omega arith) (omega arith);
    mapped = Mapped-write v.mapped l f el en;
    used = AllInUse-write s.cdevtbl l f v.used (λ h. ok);
    devices = Attached-set_in l f v.devices;
  }

  -- A LUN may change in all that the mapping does not read.
  pub Inv-set_lun : (i : ℕ) (l : Lun) → SameMap l (s.luntbl i) → Inv (set_lun i l s) ls
  Inv-set_lun i l h = record {
    list = v.list;
    mapped = Mapped-same v.mapped (update s.luntbl i l) (λ j. SameMap-update j);
    used = v.used;
    devices = v.devices;
  }
    where
      SameMap-update : (j : ℕ) → SameMap (update s.luntbl i l j) (s.luntbl j)
      SameMap-update j = elim (Bool-cases (j == i)) [
        | inl e ↦
            subst (λ x. SameMap (update s.luntbl i l x) (s.luntbl x)) (sym ((==_iff j i).0 e))
              (subst (λ y. SameMap y (s.luntbl i)) (sym (update_self s.luntbl i l)) h)
        | inr ne ↦
            subst (λ y. SameMap y (s.luntbl j)) (sym (update_other s.luntbl i j l ne))
              (SameMap-refl (s.luntbl j))
      ]
