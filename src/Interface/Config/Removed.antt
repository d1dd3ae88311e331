-- ===== src/Interface/Config/Removed.antt =====
-- `sce_rmcdev` and the invariant.
use mathlib.Core.Path.{subst}
use iostash.Prelude.{
  ℕ, ◌≤◌, ◌<◌, ◌≡◌, true, false, ◌&&◌, refl, ap, ◌∙◌, sym, arith, ◌==◌, none, List, Bool-cases, inl,
  inr, leb, update, update_self,
}
use iostash.Word.{sce_maxcdev, sce_maxlun, fragnum_free, is_mapped, pfid_dev, u32_sub}
use iostash.State.{Sce, Lun, Cdevs, Ret, success, error, ok, Loc, Frag, frag_in, frag_at, desc_in}
use iostash.Cdev.{no_cdev, cdev_destroy}
use iostash.Invariant.Slots.{Attached-small, Attached-some, Attached-same, Attached-update}
use iostash.Invariant.{IsFrag, Names, Holds, Mapped, Sized, InUse, AllInUse, Inv, Attached}
use iostash.Invariant.Chain.{not-has_of_used}
use iostash.FreeList.{freefraglist_rmcdev}
use iostash.FreeList.Remove.{Removed, without, IsFrag-Relinked, IsFrag-of_Relinked}
use iostash.FreeList.Remove.Gone.{
  freefraglist_rmcdev-Removed, gone, IsFrag-gone, IsFrag-of_gone, frag_in-gone, FreeListIn-gone,
}
use iostash.Lun.Drop.{names_dev, Dropping, Found}
use iostash.Interface.Config.{sce_rmcdev, rmcdev_luns}
use iostash.Interface.Config.Dropping.{rmcdev_luns-Dropping}

-- What `sce_rmcdev` leaves: the invariant without the fragments of the device, an empty slot, and all
-- descriptors and fragments in use that do not belong to the device as they were.
pub record Detached (d : ℕ) (s s' : Sce) (ls : List Loc) : Type 0 where
  pub inv : Inv s' (without d ls)
  pub slot : s'.cdevtbl d ≡ no_cdev
  pub kept :
      (i n : ℕ) → names_dev s.luntbl i n d ≡ false → desc_in s'.luntbl i n ≡ desc_in s.luntbl i n
  pub frags :
      (l : Loc)
      → (l.dev == d) ≡ false
      → IsFrag s.cdevtbl l
      → (frag_at s l).fragnum < fragnum_free
      → frag_at s' l ≡ frag_at s l
  pub count : s'.nr_cdev ≡ u32_sub s.nr_cdev 1

-- The end of `sce_rmcdev`.
abbrev finish : (d : ℕ) → Sce → Sce
finish d s = record s {
  nr_cdev = u32_sub s.nr_cdev 1;
  nr_frag = u32_sub s.nr_frag (s.cdevtbl d).nr_frag;
  cdevtbl = update s.cdevtbl d (cdev_destroy (s.cdevtbl d));
}

rmcdev_run :
    (s s1 end_state : Sce) (d : ℕ)
    → (s.cdevtbl d).has_scehndl ≡ true
    → leb sce_maxcdev d ≡ false
    → freefraglist_rmcdev d s ≡ ok success s1
    → finish d (rmcdev_luns sce_maxlun 0 d s1) ≡ end_state
    → sce_rmcdev d s ≡ ok success end_state
unfolding sce_rmcdev
rmcdev_run s s1 end_state d handle low run e = rw (sce_rmcdev, handle, low, run) (ap (ok success) e)

module _ (s s1 : Sce) (ls : List Loc) (d : ℕ) (v : Inv s ls) (hd : d < sce_maxcdev)
    (r : Removed d none ls s s1) where
  abbrev t : Cdevs
  t = s.cdevtbl

  abbrev t1 : Cdevs
  t1 = s1.cdevtbl

  -- the LUNs are still those of `s`
  same_luns : s1.luntbl ≡ s.luntbl
  same_luns = ap Sce.luntbl r.rest

  mapped1 : Mapped t s1.luntbl
  mapped1 = subst (Mapped t) (sym same_luns) v.mapped

  Found-removed : Found d s1
  Found-removed i n hi map hn h =
      let (l, m) = mapped1.forward i n hi map hn (ground arith) in
      (l, IsFrag-Relinked t t1 l r.tables m.frag, m.names)

  -- A fragment in use is not in the list, and is not written.
  frag_in_use :
      (l : Loc) → IsFrag t l → (frag_in t l).fragnum < fragnum_free → frag_in t1 l ≡ frag_in t l
  frag_in_use l f low =
      r.outside l refl
        (not-has_of_used t l s.freefraglist ls v.list.chain λ e. omega (arith, low, e))

  module _ (s2 : Sce) (w : Dropping d s1 s2)
      (clear : (i n : ℕ)
        → 0 ≤ i
        → i < sce_maxlun
        → (s2.luntbl i).has_fragmap ≡ true
        → n < (s2.luntbl i).nr_frag
        → names_dev s2.luntbl i n d ≡ false) where
    Mapped-gone : Mapped (gone t1 d) s2.luntbl
    Mapped-gone = record {
      forward = λ i n hi map hn mp.
          let same = w.mapped i n mp in
          let (l, m) =
            mapped1.forward i n hi (sym (ap Lun.has_fragmap (w.lun i)) ∙ map)
              (omega (arith, hn, ap Lun.nr_frag (w.lun i))) (sym (ap is_mapped same) ∙ mp) in
          let dev : pfid_dev (desc_in s2.luntbl i n) ≡ l.dev = ap pfid_dev same ∙ m.names.0 in
          let ne : (l.dev == d) ≡ false =
            other (desc_in s2.luntbl i n) l.dev (clear i n (omega arith) hi map hn) mp dev in
          let g = frag_in-gone t1 d l ne in
          (
            l,
            record {
              frag = IsFrag-gone t1 d l ne (IsFrag-Relinked t t1 l r.tables m.frag);
              names = subst (λ x. Names x l) (sym same) m.names;
              lunidx = ap Frag.lunidx g ∙ ap Frag.lunidx (r.tables.same l) ∙ m.lunidx;
              fragnum = ap Frag.fragnum g ∙ ap Frag.fragnum (r.tables.same l) ∙ m.fragnum;
            },
          );
      backward = λ l f low.
          let (ne, f1) = IsFrag-of_gone t1 d l f in
          let f0 = IsFrag-of_Relinked t t1 l r.tables f1 in
          let g = frag_in-gone t1 d l ne in
          let num : (frag_in (gone t1 d) l).fragnum ≡ (frag_in t l).fragnum =
            ap Frag.fragnum g ∙ ap Frag.fragnum (r.tables.same l) in
          let lun : (frag_in (gone t1 d) l).lunidx ≡ (frag_in t l).lunidx =
            ap Frag.lunidx g ∙ ap Frag.lunidx (r.tables.same l) in
          let h = mapped1.backward l f0 (omega (arith, low, num)) in
          subst (λ x. Holds s2.luntbl x (frag_in (gone t1 d) l).fragnum l) (sym lun)
            (subst (λ x. Holds s2.luntbl (frag_in t l).lunidx x l) (sym num)
              (Holds-kept (frag_in t l).lunidx (frag_in t l).fragnum l ne h));
      words = λ i n. w.words i n (mapped1.words i n);
      lengths = λ i.
          let h = mapped1.lengths i in
          subst Sized (sym (w.lun i))
            (record { small = h.small; fits = h.fits; covers = h.covers });
    }
      where
        other :
            (x dev : ℕ)
            → (is_mapped x && pfid_dev x == d) ≡ false
            → is_mapped x ≡ true
            → pfid_dev x ≡ dev
            → (dev == d) ≡ false
        other x dev h m e = ground arith

        names_other :
            (x : ℕ) (l : Loc)
            → (l.dev == d) ≡ false
            → Names x l
            → (is_mapped x && pfid_dev x == d) ≡ false
        names_other x l ne names = ground (arith, names.0)

        Holds-kept :
            (i n : ℕ) (l : Loc)
            → (l.dev == d) ≡ false
            → Holds s1.luntbl i n l
            → Holds s2.luntbl i n l
        Holds-kept i n l ne h =
            let same = w.kept i n (names_other (desc_in s1.luntbl i n) l ne h.names) in
            record {
              index = h.index;
              map = ap Lun.has_fragmap (w.lun i) ∙ h.map;
              handle = ap Lun.has_scehndl (w.lun i) ∙ h.handle;
              fragnum = omega (arith, h.fragnum, ap Lun.nr_frag (w.lun i));
              mapped = ap is_mapped same ∙ h.mapped;
              names = subst (λ x. Names x l) (sym same) h.names;
            }

    AllInUse-gone : AllInUse (gone t1 d)
    AllInUse-gone l f low =
        let (ne, f1) = IsFrag-of_gone t1 d l f in
        let f0 = IsFrag-of_Relinked t t1 l r.tables f1 in
        let g = frag_in-gone t1 d l ne in
        let num : (frag_in (gone t1 d) l).fragnum ≡ (frag_in t l).fragnum =
          ap Frag.fragnum g ∙ ap Frag.fragnum (r.tables.same l) in
        let low0 : (frag_in t l).fragnum < fragnum_free = omega (arith, low, num) in
        subst InUse (sym (g ∙ frag_in_use l f0 low0)) (v.used l f0 low0)

    -- The state that is left.
    abbrev left : Sce
    left = record s {
      nr_cdev = u32_sub s.nr_cdev 1;
      nr_frag = u32_sub s.nr_frag (t1 d).nr_frag;
      cdevtbl = gone t1 d;
      luntbl = s2.luntbl;
      freefraglist = s1.freefraglist;
      nr_freefrag = s1.nr_freefrag;
    }

    Attached-left : (t d).has_scehndl ≡ true → Attached (gone t1 d) (u32_sub s.nr_cdev 1)
    Attached-left handle =
        let table : (t d).has_fragtbl ≡ true = sym (v.devices.handles d) ∙ handle in
        let some_dev = Attached-some v.devices d hd table in
        let small = Attached-small v.devices in
        let same : Attached t1 s.nr_cdev =
          Attached-same r.tables.tables r.tables.handles v.devices in
        let table1 : (t1 d).has_fragtbl ≡ true = r.tables.tables d ∙ table in
        Attached-update (u32_sub s.nr_cdev 1) d no_cdev hd refl (ground arith) same

    left_eq : finish d s2 ≡ left
    unfolding cdev_destroy
    left_eq =
        ap (finish d) w.rest ∙ ap (λ (x : Sce). finish d (record x { luntbl = s2.luntbl })) r.rest

    Detached-left : (t d).has_scehndl ≡ true → Detached d s left ls
    Detached-left handle = record {
      inv = record {
        list = FreeListIn-gone s s1 ls d v.list hd r;
        mapped = Mapped-gone;
        used = AllInUse-gone;
        devices = Attached-left handle;
      };
      slot = update_self t1 d no_cdev;
      kept = λ i n h.
          w.kept i n (subst (λ u. names_dev u i n d ≡ false) (sym same_luns) h)
          ∙ ap (λ u. desc_in u i n) same_luns;
      frags = λ l ne f low. frag_in-gone t1 d l ne ∙ frag_in_use l f low;
      count = refl;
    }

-- In the invariant `sce_rmcdev` of an attached device ends with success: it takes the device's
-- fragments out of the free list, clears the descriptors that name it, and empties its slot. The
-- invariant holds for what is left; all other descriptors and fragments in use are as they were.
pub sce_rmcdev-Detached :
    (s : Sce) (ls : List Loc) (d : ℕ)
    → Inv s ls
    → d < sce_maxcdev
    → (s.cdevtbl d).has_scehndl ≡ true
    → (s' : Sce) × (sce_rmcdev d s ≡ ok success s') × Detached d s s' ls
sce_rmcdev-Detached s ls d v hd handle =
    let (s1, run, r) = freefraglist_rmcdev-Removed s ls d v.list hd in
    let (w, clear) =
      rmcdev_luns-Dropping sce_maxlun 0 d s1 (Found-removed s s1 ls d v hd r) hd (omega arith) in
    let s2 = rmcdev_luns sce_maxlun 0 d s1 in
    let low : leb sce_maxcdev d ≡ false = ground arith in
    (
      left s s1 ls d v hd r s2 w clear,
      rmcdev_run s s1 _ d handle low run (left_eq s s1 ls d v hd r s2 w clear),
      Detached-left s s1 ls d v hd r s2 w clear handle,
    )

rmcdev_refused : (s : Sce) (d : ℕ) → (s.cdevtbl d).has_scehndl ≡ false → sce_rmcdev d s ≡ ok error s
unfolding sce_rmcdev
rmcdev_refused s d h = rw (h, sce_rmcdev) refl

-- Whether the device is attached or not, `sce_rmcdev` ends and keeps the invariant.
pub sce_rmcdev-Inv :
    (s : Sce) (ls : List Loc) (d : ℕ)
    → Inv s ls
    → d < sce_maxcdev
    → (ret : Ret) × (s' : Sce) × (ls' : List Loc) × (sce_rmcdev d s ≡ ok ret s') × Inv s' ls'
sce_rmcdev-Inv s ls d v hd = elim (Bool-cases (s.cdevtbl d).has_scehndl) [
  | inl handle ↦
      let (s', run, w) = sce_rmcdev-Detached s ls d v hd handle in
      (success, s', without d ls, run, w.inv)
  | inr none_there ↦ (error, s, ls, rmcdev_refused s d none_there, v)
]
