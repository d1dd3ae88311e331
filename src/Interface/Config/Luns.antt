-- ===== src/Interface/Config/Luns.antt =====
-- The invariant of a new engine, and of one that gets a new LUN.
use mathlib.Core.Path.{subst}
use iostash.Prelude.{
  ℕ, zero, suc, ◌+◌, ◌-◌, ◌*◌, ◌/◌, ◌%◌, ◌^◌, ◌≤◌, ◌<◌, ◌≡◌, ◌==◌, Bool, true, false, arith, refl,
  ap, ◌∙◌, sym, Option, some, none, List, [], Bool-cases, inl, inr, ==_iff, update, update_self,
  update_other, update_all, sum_below, Option-cases,
}
use iostash.Word.{sce_maxlun, sce_sctrperfrag, fragnum_free, is_mapped, u32_add}
use iostash.State.{Sce, Lun, Luns, ok, Loc, desc_in, frag_in, set_lun}
use iostash.Invariant.{Inv, MapsTo, Holds, Names, Sized}
use iostash.Lun.{lun_init, no_stats}
use iostash.Interface.Config.{sce_create, sce_addlun, first_unused}

-- A new engine is in the invariant, with an empty free list.
pub sce_create-Inv : (s : Sce) × (sce_create true ≡ some s) × Inv s []
unfolding sce_create sum_below
sce_create-Inv = (
  _,
  refl,
  record {
    list = record {
      chain = refl;
      complete = λ l f e. absurd (omega (arith, f.off));
      length = refl;
      counted = refl;
      total = refl;
      sizes = λ d. omega arith;
      tables = λ d h. absurd (omega (arith, h));
    };
    mapped = record {
      forward = λ i n a b c e. absurd (omega (arith, c));
      backward = λ l f e. absurd (omega (arith, f.off));
      words = λ i n. omega arith;
      lengths = λ i. record { small = omega arith; fits = omega arith; covers = omega arith };
    };
    used = λ l f e. absurd (omega (arith, f.off));
    devices = record { count = refl; handles = λ d. refl };
  },
)

none-some : {j : ℕ} → ◌≡◌ {A = Option ℕ} none (some j) → ⊥
none-some {j} e = let bad : true ≡ false = ap (λ o. elim o [ none ↦ true | some x ↦ false ]) e in cc

pub some_inj : {i j : ℕ} → some i ≡ some j → i ≡ j
some_inj {i} {j} e = ap (λ o. elim o [ none ↦ i | some x ↦ x ]) e

pub first_unused-free :
    (k i j : ℕ) (used : ℕ → Bool) → first_unused k i used ≡ some j → (used j ≡ false) × (j < i + k)
unfolding first_unused
first_unused-free zero i j used e = absurd (none-some e)
first_unused-free (suc k) i j used e = elim (Bool-cases (used i)) [
  | inl busy ↦
      let later : first_unused k (suc i) used ≡ some j =
        subst (λ b. elim b [ true ↦ first_unused k (suc i) used | false ↦ some i ] ≡ some j) busy
          e in
      let (free, low) = first_unused-free k (suc i) j used later in (free, omega (arith, low))
  | inr free ↦
      let here : some i ≡ some j =
        subst (λ b. elim b [ true ↦ first_unused k (suc i) used | false ↦ some i ] ≡ some j) free
          e in
      let same : i ≡ j = some_inj here in
      (subst (λ x. used x ≡ false) same free, omega (arith, same))
]

-- What a new map must be.
record Blank (l : Lun) : Type 0 where
  unmapped : (n : ℕ) → l.has_fragmap ≡ true → is_mapped (l.fragmap n) ≡ false
  words : (n : ℕ) → l.fragmap n < 2 ^ 32
  length : Sized l

-- A LUN without a map gets an empty one.
module _ (s : Sce) (ls : List Loc) (i : ℕ) (l : Lun) (v : Inv s ls)
    (free : (s.luntbl i).has_fragmap ≡ false) (b : Blank l) where
  abbrev new : Luns
  new = update s.luntbl i l

  forward_blank :
      (j n : ℕ)
      → j < sce_maxlun
      → (new j).has_fragmap ≡ true
      → n < (new j).nr_frag
      → is_mapped (desc_in new j n) ≡ true
      → (a : Loc) × MapsTo s.cdevtbl new j n a
  forward_blank j n hj map hn mapped = elim (Bool-cases (j == i)) [
    | inl e ↦
        let same : new j ≡ l = ap new ((==_iff j i).0 e) ∙ update_self s.luntbl i l in
        let bad : true ≡ false =
          sym mapped
          ∙ ap (λ u. is_mapped (u.fragmap n)) same
          ∙ b.unmapped n (sym (ap Lun.has_fragmap same) ∙ map) in
        cc
    | inr ne ↦
        let same : new j ≡ s.luntbl j = update_other s.luntbl i j l ne in
        let (a, m) =
          v.mapped.forward j n hj (sym (ap Lun.has_fragmap same) ∙ map)
            (subst (λ u. n < u.nr_frag) same hn)
            (sym (ap (λ u. is_mapped (u.fragmap n)) same) ∙ mapped) in
        (
          a,
          record {
            frag = m.frag;
            lunidx = m.lunidx;
            fragnum = m.fragnum;
            names = subst (λ u. Names (u.fragmap n) a) (sym same) m.names;
          },
        )
  ]

  Holds-blank : (j n : ℕ) (a : Loc) → Holds s.luntbl j n a → Holds new j n a
  Holds-blank j n a h = elim (Bool-cases (j == i)) [
    | inl e ↦
        let bad : true ≡ false =
          sym h.map ∙ ap (λ x. (s.luntbl x).has_fragmap) ((==_iff j i).0 e) ∙ free in
        cc
    | inr ne ↦
        let same : s.luntbl j ≡ new j = sym (update_other s.luntbl i j l ne) in
        record {
          index = h.index;
          map = sym (ap Lun.has_fragmap same) ∙ h.map;
          handle = sym (ap Lun.has_scehndl same) ∙ h.handle;
          fragnum = subst (λ u. n < u.nr_frag) same h.fragnum;
          mapped = sym (ap (λ u. is_mapped (u.fragmap n)) same) ∙ h.mapped;
          names = subst (λ u. Names (u.fragmap n) a) same h.names;
        }
  ]

  Inv-set_blank : Inv (set_lun i l s) ls
  Inv-set_blank = record {
    list = v.list;
    mapped = record {
      forward = forward_blank;
      backward = λ a f low.
          Holds-blank (frag_in s.cdevtbl a).lunidx (frag_in s.cdevtbl a).fragnum a
            (v.mapped.backward a f low);
      words = λ j n.
          update_all (λ x u. u.fragmap n < 2 ^ 32) s.luntbl i l (b.words n)
            (λ x. v.mapped.words x n) j;
      lengths = update_all (λ x u. Sized u) s.luntbl i l b.length v.mapped.lengths;
    };
    used = v.used;
    devices = v.devices;
  }

Sized-new :
    (l : Lun) (nr_sctr : ℕ)
    → nr_sctr ≤ fragnum_free * sce_sctrperfrag
    → Sized (record l {
      nr_sctr = nr_sctr;
      nr_frag = ((nr_sctr + sce_sctrperfrag - 1) % 2 ^ 64) / sce_sctrperfrag % 2 ^ 32;
    })
Sized-new l nr_sctr h = record {
  small = omega (arith, h);
  fits = omega (arith, h);
  covers = omega (arith, h);
}

abbrev frags_of : ℕ → ℕ
frags_of nr_sctr = ((nr_sctr + sce_sctrperfrag - 1) % 2 ^ 64) / sce_sctrperfrag % 2 ^ 32

-- a slot without memory for its map, and one that is given away
abbrev no_map : Lun → (nr_sctr : ℕ) → Lun
no_map l nr_sctr = record l {
  has_scehndl = true;
  nr_sctr = nr_sctr;
  nr_frag = frags_of nr_sctr;
  has_fragmap = false;
}

abbrev empty_map : Lun → (nr_sctr lunctx : ℕ) → Lun
empty_map l nr_sctr lunctx = record l {
  has_scehndl = true;
  nr_sctr = nr_sctr;
  nr_frag = frags_of nr_sctr;
  has_fragmap = true;
  fragmap = λ _. 0x55555555;
  stats = no_stats;
  lunctx = lunctx;
}

false-true : false ≡ true → ⊥
false-true e = let same : true ≡ false = sym e in absurd (ground arith)

-- `sce_addlun` keeps the invariant and the free list, whether it finds a LUN and memory or not, if the
-- size of the LUN is one that fragment numbers can name. A LUN that it gives had no map before.
pub sce_addlun-Inv :
    (s : Sce) (ls : List Loc) (mem : Bool) (nr_sctr lunctx : ℕ)
    → Inv s ls
    → nr_sctr ≤ fragnum_free * sce_sctrperfrag
    → (out : Option ℕ) × (s' : Sce) × (sce_addlun mem nr_sctr lunctx s ≡ ok out s') × Inv s' ls
unfolding sce_addlun lun_init
sce_addlun-Inv s ls mem nr_sctr lunctx v h = elim (Bool-cases (nr_sctr == 0)) [
  | inl z ↦ (none, s, rw (z, sce_addlun) refl, v)
  | inr nz ↦ elim (Option-cases (first_unused sce_maxlun 0 (λ i. (s.luntbl i).has_fragmap))) [
    | inl full ↦ (none, s, rw (nz, full, sce_addlun) refl, v)
    | inr (i, found) ↦
        let (free, low) = first_unused-free sce_maxlun 0 i (λ i. (s.luntbl i).has_fragmap) found in
        elim mem
          as (λ mem.
            (out : Option ℕ) × (s' : Sce) × (sce_addlun mem nr_sctr lunctx s ≡ ok out s')
            × Inv s' ls) [
              | false ↦
                  let l : Lun = no_map (s.luntbl i) nr_sctr in
                  (
                    none,
                    set_lun i l s,
                    rw (nz, found, sce_addlun) refl,
                    Inv-set_blank s ls i l v free (record {
                      unmapped = λ n bad. absurd (false-true bad);
                      words = λ n. v.mapped.words i n;
                      length = Sized-new l nr_sctr h;
                    }),
                  )
              | true ↦
                  let l : Lun = empty_map (s.luntbl i) nr_sctr lunctx in
                  let w = Inv-set_blank s ls i l v free (record {
                    unmapped = λ n _. refl;
                    words = λ n. omega arith;
                    length = Sized-new l nr_sctr h;
                  }) in
                  (
                    some i,
                    record (set_lun i l s) { nr_lun = u32_add s.nr_lun 1 },
                    rw (nz, found, sce_addlun) refl,
                    record { list = w.list; mapped = w.mapped; used = w.used; devices = w.devices },
                  )
            ]
  ]
]
