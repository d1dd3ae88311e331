-- ===== src/Invariant/Ages.antt =====
-- Changes that bring no new data into the cache: descriptors stay or get unmapped, pages that are
-- marked invalid stay so, and devices and LUNs keep their sizes.
use iostash.Prelude.{
  ℕ, ◌≡◌, ◌/◌, ◌%◌, true, false, ◌&&◌, refl, ap, ◌∙◌, sym, ◌⊎◌, inl, inr, Bool-cases, some, ◌==◌,
  update, update_all,
}
use mathlib.Core.Path.{subst}
use iostash.Word.{is_mapped, sce_pageperfrag, pfid_dev, pfid_off}
use iostash.State.{
  Sce, Lun, Loc, Frag, frag_at, set_frag, frag_in, set_in, desc_in, set_desc, set_lun, loc_eq,
}
use iostash.State.Access.{frag_in-set_self, frag_in-set_other, eq_of_loc_eq}
use iostash.Util.{pfid2frag}
use iostash.Fragment.Pages.{page}
use iostash.Invariant.{IsFrag}
use iostash.Invariant.Chain.{IsFrag-of_set_in}
use iostash.Invariant.Pfid.{pfid2frag-IsFrag, pfid2frag-Names}
use iostash.Invariant.Places.{desc_in-set}

-- What a request reads of a LUN, the map left out.
pub record LunKept (a b : Lun) : Type 0 where
  pub has_fragmap : b.has_fragmap ≡ a.has_fragmap
  pub has_scehndl : b.has_scehndl ≡ a.has_scehndl
  pub nr_frag : b.nr_frag ≡ a.nr_frag
  pub nr_sctr : b.nr_sctr ≡ a.nr_sctr
  pub waiting4deletion : b.waiting4deletion ≡ a.waiting4deletion

pub record Ages (s s' : Sce) : Type 0 where
  pub lun : (j : ℕ) → LunKept (s.luntbl j) (s'.luntbl j)
  pub desc :
      (j m : ℕ)
      → (desc_in s'.luntbl j m ≡ desc_in s.luntbl j m) ⊎ (is_mapped (desc_in s'.luntbl j m) ≡ false)
  pub frags : (l : Loc) → IsFrag s'.cdevtbl l → IsFrag s.cdevtbl l
  pub pages :
      (l : Loc) (p : ℕ) → page (frag_at s l).bitmap p ≡ true → page (frag_at s' l).bitmap p ≡ true

LunKept-refl : (a : Lun) → LunKept a a
LunKept-refl a = record {
  has_fragmap = refl;
  has_scehndl = refl;
  nr_frag = refl;
  nr_sctr = refl;
  waiting4deletion = refl;
}

pub Ages-refl : (s : Sce) → Ages s s
Ages-refl s = record {
  lun = λ j. LunKept-refl (s.luntbl j);
  desc = λ j m. inl refl;
  frags = λ l f. f;
  pages = λ l p h. h;
}

pub Ages-trans : (a b c : Sce) → Ages a b → Ages b c → Ages a c
Ages-trans a b c x y = record {
  lun = λ j.
      let p = x.lun j in
      let q = y.lun j in
      record {
        has_fragmap = q.has_fragmap ∙ p.has_fragmap;
        has_scehndl = q.has_scehndl ∙ p.has_scehndl;
        nr_frag = q.nr_frag ∙ p.nr_frag;
        nr_sctr = q.nr_sctr ∙ p.nr_sctr;
        waiting4deletion = q.waiting4deletion ∙ p.waiting4deletion;
      };
  desc = λ j m. elim (y.desc j m) [
    | inr gone ↦ inr gone
    | inl same ↦ elim (x.desc j m) [
      | inl old ↦ inl (same ∙ old)
      | inr gone ↦ inr (ap is_mapped same ∙ gone)
    ]
  ];
  frags = λ l f. x.frags l (y.frags l f);
  pages = λ l p h. y.pages l p (x.pages l p h);
}

-- Page `p` of fragment `n` of a LUN is not cached, or is marked invalid.
abbrev pub DirtyAt : Sce → (lun n p : ℕ) → Type 0
DirtyAt s lun n p =
    is_mapped (desc_in s.luntbl lun n) ≡ true
    → (l : Loc) → pfid2frag s (desc_in s.luntbl lun n) ≡ some l
    → page (frag_at s l).bitmap p ≡ true

-- The same for page `q` of the LUN.
abbrev pub Dirty : Sce → (lun q : ℕ) → Type 0
Dirty s lun q = DirtyAt s lun (q / sce_pageperfrag) (q % sce_pageperfrag)

pub DirtyAt-Ages : (s s' : Sce) (lun n p : ℕ) → Ages s s' → DirtyAt s lun n p → DirtyAt s' lun n p
DirtyAt-Ages s s' lun n p a d mapped l found = elim (a.desc lun n) [
  | inr gone ↦ let same : true ≡ false = sym mapped ∙ gone in cc
  | inl same ↦
      let (f, dev, off) = pfid2frag-IsFrag s' (desc_in s'.luntbl lun n) l found in
      let old = a.frags l f in
      a.pages l p (
        d (ap is_mapped (sym same) ∙ mapped) l (
          pfid2frag-Names s (desc_in s.luntbl lun n) l
            (ap pfid_dev (sym same) ∙ dev, ap pfid_off (sym same) ∙ off) old))
]

-- A write to a fragment that clears no mark.
pub Ages-frag :
    (s : Sce) (l : Loc) (f : Frag)
    → ((p : ℕ) → page (frag_at s l).bitmap p ≡ true → page f.bitmap p ≡ true)
    → Ages s (set_frag l f s)
Ages-frag s l f keep = record {
  lun = λ j. LunKept-refl (s.luntbl j);
  desc = λ j m. inl refl;
  frags = λ k h. IsFrag-of_set_in s.cdevtbl l k f h;
  pages = λ k p h. elim (Bool-cases (loc_eq l k)) [
    | inl same ↦
        let e = eq_of_loc_eq l k same in
        subst (λ x. page (frag_in (set_in s.cdevtbl l f) x).bitmap p ≡ true) e
          (ap (λ g. page g.bitmap p) (frag_in-set_self s.cdevtbl l f)
            ∙ keep p (ap (λ x. page (frag_at s x).bitmap p) e ∙ h))
    | inr other ↦ ap (λ g. page g.bitmap p) (frag_in-set_other s.cdevtbl l k f other) ∙ h
  ];
}

-- A descriptor that stays or is not mapped afterwards.
pub Ages-desc : (s : Sce) (i n d : ℕ) → is_mapped d ≡ false → Ages s (set_desc i n d s)
Ages-desc s i n d gone = record {
  lun =
      update_all (λ j x. LunKept (s.luntbl j) x) s.luntbl i
        (record (s.luntbl i) { fragmap = update (s.luntbl i).fragmap n d })
        (record {
          has_fragmap = refl;
          has_scehndl = refl;
          nr_frag = refl;
          nr_sctr = refl;
          waiting4deletion = refl;
        })
        (λ j. LunKept-refl (s.luntbl j));
  desc = λ j m. elim (Bool-cases ((j == i) && (m == n))) [
    | inl here ↦ inr (ap is_mapped (desc_in-set s.luntbl i n d j m ∙ rw here refl) ∙ gone)
    | inr ne ↦ inl (desc_in-set s.luntbl i n d j m ∙ rw ne refl)
  ];
  frags = λ k h. h;
  pages = λ k p h. h;
}

-- A LUN that changes in its statistics and service count only.
pub Ages-lun :
    (s : Sce) (i : ℕ) (u : Lun)
    → u.fragmap ≡ (s.luntbl i).fragmap
    → LunKept (s.luntbl i) u
    → Ages s (set_lun i u s)
Ages-lun s i u map k = record {
  lun = update_all (λ j x. LunKept (s.luntbl j) x) s.luntbl i u k (λ j. LunKept-refl (s.luntbl j));
  desc = λ j m. inl (
      ap (λ g. g m)
        (update_all (λ j x. x.fragmap ≡ (s.luntbl j).fragmap) s.luntbl i u map (λ j. refl) j));
  frags = λ k h. h;
  pages = λ k p h. h;
}
