-- ===== src/Lun/Drop.antt =====
-- What `_lun_rmcdev` does with one descriptor: it is cleared if it names the device.
use mathlib.Core.Path.{subst}
use iostash.Prelude.{
  ℕ, ◌*◌, ◌^◌, ◌<◌, ◌≡◌, Bool, true, false, ◌&&◌, refl, ap, ap₂, ◌∙◌, ◌⊎◌, sym, arith, ◌==◌,
  if◌then◌else◌, some, Bool-cases, inl, inr, update, update_self, update_all, update-update,
}
use iostash.Word.{sce_maxlun, is_mapped, pfid_dev, fragdesc_data, u64_sub, sce_sctrperpage}
use iostash.State.{Sce, Lun, LunStats, Loc, Frag, frag_at, Luns, desc_in, set_desc, set_lun}
use iostash.Util.{pfid2frag}
use iostash.Invariant.{IsFrag, Names}
use iostash.Invariant.Pfid.{pfid2frag-Names}
use iostash.Invariant.Places.{at_place, at_place_eq}
use iostash.Lun.{drop_desc}

-- The descriptor of fragment `n` of LUN `i` names a fragment of device `d`.
abbrev pub names_dev : Luns → (i n d : ℕ) → Bool
names_dev u i n d = is_mapped (desc_in u i n) && pfid_dev (desc_in u i n) == d

-- Descriptors that name `d` may be cleared, and nothing else but the counters of LUNs changes.
pub record Dropping (d : ℕ) (s s' : Sce) : Type 0 where
  pub rest : s' ≡ record s { luntbl = s'.luntbl }
  pub lun :
      (i : ℕ)
      → s'.luntbl i
        ≡ record (s.luntbl i) { fragmap = (s'.luntbl i).fragmap; stats = (s'.luntbl i).stats }
  pub kept :
      (i n : ℕ) → names_dev s.luntbl i n d ≡ false → desc_in s'.luntbl i n ≡ desc_in s.luntbl i n
  pub mapped :
      (i n : ℕ)
      → is_mapped (desc_in s'.luntbl i n) ≡ true
      → desc_in s'.luntbl i n ≡ desc_in s.luntbl i n
  pub words : (i n : ℕ) → desc_in s.luntbl i n < 2 ^ 32 → desc_in s'.luntbl i n < 2 ^ 32

pub Dropping-refl : (d : ℕ) (s : Sce) → Dropping d s s
Dropping-refl d s = record {
  rest = refl;
  lun = λ i. refl;
  kept = λ i n h. refl;
  mapped = λ i n h. refl;
  words = λ i n h. h;
}

-- A descriptor that does not name the device stays so.
pub Dropping-clear :
    (d : ℕ) (s s' : Sce) (i n : ℕ)
    → Dropping d s s'
    → names_dev s.luntbl i n d ≡ false
    → names_dev s'.luntbl i n d ≡ false
Dropping-clear d s s' i n w h = ap (λ x. is_mapped x && pfid_dev x == d) (w.kept i n h) ∙ h

pub Dropping-trans : (d : ℕ) (s s1 s2 : Sce) → Dropping d s s1 → Dropping d s1 s2 → Dropping d s s2
Dropping-trans d s s1 s2 v w = record {
  rest = w.rest ∙ ap (λ (x : Sce). record x { luntbl = s2.luntbl }) v.rest;
  lun = λ i.
      w.lun i
      ∙ ap (λ (x : Lun). record x { fragmap = (s2.luntbl i).fragmap; stats = (s2.luntbl i).stats })
          (v.lun i);
  kept = λ i n h. w.kept i n (Dropping-clear d s s1 i n v h) ∙ v.kept i n h;
  mapped = λ i n h. let e = w.mapped i n h in e ∙ v.mapped i n (ap is_mapped (sym e) ∙ h);
  words = λ i n h. w.words i n (v.words i n h);
}

-- A descriptor of the map that names the device names a fragment that is there.
abbrev pub Found : (d : ℕ) → Sce → Type 0
Found d s =
    (i n : ℕ)
    → i < sce_maxlun
    → (s.luntbl i).has_fragmap ≡ true
    → n < (s.luntbl i).nr_frag
    → names_dev s.luntbl i n d ≡ true
    → (l : Loc) × IsFrag s.cdevtbl l × Names (desc_in s.luntbl i n) l

-- The state with the descriptor cleared.
abbrev cleared : (i n v : ℕ) → LunStats → Sce → Sce
cleared i n v st s = record s {
  luntbl =
      update s.luntbl i
        (record (s.luntbl i) { fragmap = update (s.luntbl i).fragmap n v; stats = st });
}

unmapped : (v : ℕ) → v < 2 ^ 28 → is_mapped v ≡ true → ⊥
unmapped v small h = ground arith

desc_cleared :
    (i n v : ℕ) (st : LunStats) (s : Sce) (j m : ℕ)
    → desc_in (cleared i n v st s).luntbl j m
      ≡ (if at_place i n j m then v else desc_in s.luntbl j m)
desc_cleared i n v st s j m = ground arith

-- Elsewhere it is as it was, and here it was one that names the device.
split :
    (i n v : ℕ) (st : LunStats) (s : Sce) (j m : ℕ)
    → (desc_in (cleared i n v st s).luntbl j m ≡ desc_in s.luntbl j m)
      ⊎ ((desc_in (cleared i n v st s).luntbl j m ≡ v) × (j ≡ i) × (m ≡ n))
split i n v st s j m = elim (Bool-cases (at_place i n j m)) [
  | inl e ↦
      let (a, b) = at_place_eq i n j m e in inr (desc_cleared i n v st s j m ∙ rw e refl, a, b)
  | inr ne ↦ inl (desc_cleared i n v st s j m ∙ rw ne refl)
]

cleared-Dropping :
    (d i n v : ℕ) (st : LunStats) (s : Sce)
    → v < 2 ^ 28
    → names_dev s.luntbl i n d ≡ true
    → Dropping d s (cleared i n v st s)
cleared-Dropping d i n v st s small here = record {
  rest = refl;
  lun =
      update_all (λ j (x : Lun). x ≡ record (s.luntbl j) { fragmap = x.fragmap; stats = x.stats })
        s.luntbl i _ refl (λ j. refl);
  kept = λ j m h. elim (split i n v st s j m) [
    | inl same ↦ same
    | inr (_, a, b) ↦
        let bad : true ≡ false =
          sym here ∙ ap₂ (λ x y. names_dev s.luntbl x y d) (sym a) (sym b) ∙ h in
        cc
  ];
  mapped = λ j m h. elim (split i n v st s j m) [
    | inl same ↦ same
    | inr (e, _, _) ↦ absurd (unmapped v small (ap is_mapped (sym e) ∙ h))
  ];
  words =
      λ j m h. elim (split i n v st s j m) [ inl same ↦ omega arith | inr (e, _, _) ↦ omega arith ];
}

-- The code writes the descriptor first and the counters then.
written_twice :
    (i n v : ℕ) (f : LunStats → LunStats) (s : Sce)
    → (let s' = set_desc i n v s in
        set_lun i (record (s'.luntbl i) { stats = f (s'.luntbl i).stats }) s')
      ≡ cleared i n v (f (s.luntbl i).stats) s
written_twice i n v f s =
    let a : Lun = record (s.luntbl i) { fragmap = update (s.luntbl i).fragmap n v } in
    let g : Lun → Lun = λ x. record x { stats = f x.stats } in
    ap (λ u. record s { luntbl = u })
      (update-update s.luntbl i a (g (update s.luntbl i a i))
        ∙ ap (λ x. update s.luntbl i (g x)) (update_self s.luntbl i a))

abbrev less : Frag → LunStats → LunStats
less f st = record st {
  alloc_sctrs = u64_sub st.alloc_sctrs 1;
  valid_sctrs = u64_sub st.valid_sctrs (f.nr_valid * sce_sctrperpage);
}

drop_desc_lem :
    (i d n : ℕ) (s : Sce) (l : Loc)
    → names_dev s.luntbl i n d ≡ true
    → pfid2frag s (desc_in s.luntbl i n) ≡ some l
    → drop_desc i d n s
      ≡ cleared i n (fragdesc_data (frag_at s l).nr_miss) (less (frag_at s l) (s.luntbl i).stats) s
unfolding drop_desc
drop_desc_lem i d n s l h found =
    rw (drop_desc, h, found)
      (written_twice i n (fragdesc_data (frag_at s l).nr_miss) (less (frag_at s l)) s)

clear_of_small : (x v d : ℕ) → x ≡ v → v < 2 ^ 28 → (is_mapped x && pfid_dev x == d) ≡ false
clear_of_small x v d e small = ground arith

pub drop_desc-Dropping :
    (i d n : ℕ) (s : Sce)
    → Found d s
    → i < sce_maxlun
    → (s.luntbl i).has_fragmap ≡ true
    → n < (s.luntbl i).nr_frag
    → Dropping d s (drop_desc i d n s) × (names_dev (drop_desc i d n s).luntbl i n d ≡ false)
unfolding drop_desc
drop_desc-Dropping i d n s there hi map hn = elim (Bool-cases (names_dev s.luntbl i n d)) [
  | inr other ↦
      let same : drop_desc i d n s ≡ s = rw (drop_desc, other) refl in
      subst (λ x. Dropping d s x × (names_dev x.luntbl i n d ≡ false)) (sym same)
        (Dropping-refl d s, other)
  | inl here ↦
      let (l, f, names) = there i n hi map hn here in
      let v = fragdesc_data (frag_at s l).nr_miss in
      let st = less (frag_at s l) (s.luntbl i).stats in
      let found = pfid2frag-Names s (desc_in s.luntbl i n) l names f in
      subst (λ x. Dropping d s x × (names_dev x.luntbl i n d ≡ false))
        (sym (drop_desc_lem i d n s l here found))
        (
          cleared-Dropping d i n v st s (omega arith) here,
          clear_of_small (desc_in (cleared i n v st s).luntbl i n) v d (ground arith) (omega arith),
        )
]

pub Found-Dropping : (d : ℕ) (s s' : Sce) → Dropping d s s' → Found d s → Found d s'
Found-Dropping d s s' w there i n hi map hn h =
    let same = w.mapped i n (ground arith) in
    let (l, f, names) =
      there i n hi (sym (ap (λ x. x.has_fragmap) (w.lun i)) ∙ map)
        (omega (arith, hn, ap (λ x. x.nr_frag) (w.lun i)))
        (ap (λ x. is_mapped x && pfid_dev x == d) (sym same) ∙ h) in
    (
      l,
      subst (λ t. IsFrag t l) (sym (ap (λ x. x.cdevtbl) w.rest)) f,
      subst (λ x. Names x l) (sym same) names,
    )
