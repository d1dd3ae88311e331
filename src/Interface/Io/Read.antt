-- ===== src/Interface/Io/Read.antt =====
-- `sce_get4read`: which reads are served from the cache.
use mathlib.Core.Bool.{false≢true}
use iostash.Prelude.{
  ℕ, ◌+◌, ◌%◌, ◌^◌, ◌≤◌, ◌<◌, ◌≡◌, Bool, true, false, arith, refl, ap, ◌∙◌, sym, List, Bool-cases,
  inl, inr, ◌==◌, Option, some, none, if◌then◌else◌, ltb, lt→ltb, update, update_self,
}
use iostash.Word.{
  sce_maxlun, sce_refceiling, sce_pageperfrag, is_mapped, is_valid, fragdesc_inc, fragnum_free,
  u16_inc, u32_add, u64_add, pfid_dev, pfid_off,
}
use iostash.State.{
  Sce, Lun, LunStats, Ret, success, error, ok, Loc, Frag, frag_at, set_frag, set_lun, set_desc,
  desc_in,
}
use iostash.State.Access.{frag_in-set_self}
use iostash.Util.{Fmap, fmap_of}
use iostash.Fragment.{frag_isvalid}
use iostash.Fragment.Pages.{page, within, any_in, clear_in}
use iostash.Fragment.Check.{verdict}
use iostash.Fragment.Laws.{frag_isvalid-any_in, any_in-overlap}
use iostash.Misslog.{misslog_put}
use iostash.Invariant.{Inv, MapsTo}
use iostash.Invariant.Pfid.{pfid2frag-Names}
use iostash.Invariant.Places.Mark.{Mapped-mark}
use iostash.Invariant.Ages.{LunKept, Ages-lun}
use iostash.Invariant.Frame.{Inv-write, Inv-set_lun}
use iostash.Interface.Io.{
  lock_lun, page_frag, page_off, page_count, read_loc, sce_get4read, note_miss,
}
use iostash.Interface.Io.Pages.{Request, Locked, lock_lun-Locked, count_lem, frag_fit, some_pages}
use iostash.Interface.Io.Write.{set_stats, set_stats-Kept}

-- A read that is served: the place is mapped and valid, no page of the request is marked, and the
-- fragment and the LUN are held by one service more.
pub record Hit (s : Sce) (i sctrnum nr_sctr : ℕ) (l : Loc) (s' : Sce) : Type 0 where
  pub locked : Locked (s.luntbl i) sctrnum nr_sctr
  pub maps : MapsTo s.cdevtbl s.luntbl i (page_frag sctrnum) l
  pub mapped : is_mapped (desc_in s.luntbl i (page_frag sctrnum)) ≡ true
  pub valid : is_valid (desc_in s.luntbl i (page_frag sctrnum)) ≡ true
  pub one_frag : page_off sctrnum + page_count sctrnum nr_sctr ≤ sce_pageperfrag
  pub clean :
      (p : ℕ)
      → within (page_off sctrnum) (page_count sctrnum nr_sctr) p ≡ true
      → page (frag_at s l).bitmap p ≡ false
  pub held : (frag_at s' l).nr_service ≡ u16_inc (frag_at s l).nr_service
  pub lun_held : (s'.luntbl i).nr_service ≡ u32_add (s.luntbl i).nr_service 1

pub data ReadEnd (s : Sce) (i sctrnum nr_sctr : ℕ) : Ret × Option Fmap → Sce → Type 0 where
  hit :
      (l : Loc) (s' : Sce)
      → Hit s i sctrnum nr_sctr l s'
      → ReadEnd s i sctrnum nr_sctr (success, some (fmap_of s l)) s'
  miss : (out : Option Fmap) (s' : Sce) → ReadEnd s i sctrnum nr_sctr (error, out) s'

any_in-clear : (f : ℕ → Bool) (a n p : ℕ) → any_in f a n ≡ false → within a n p ≡ true → f p ≡ false
any_in-clear f a n p e h = elim (Bool-cases (f p)) [
  | inr clear ↦ clear
  | inl set ↦ let same : true ≡ false = sym (any_in-overlap f a n p h set) ∙ e in cc
]

-- The counters and the log are not in the invariant.
Inv-note_miss : (s : Sce) {ls : List Loc} (i n : ℕ) → Inv s ls → Inv (note_miss i n s) ls
unfolding misslog_put
Inv-note_miss s i n v = record {
  list = v.list;
  mapped = v.mapped;
  used = v.used;
  devices = v.devices;
}

Inv-count_hit : (s : Sce) {ls : List Loc} (k : ℕ) → Inv s ls → Inv (record s { nr_hit = k }) ls
Inv-count_hit s k v = record {
  list = v.list;
  mapped = v.mapped;
  used = v.used;
  devices = v.devices;
}

not_past : (a c : ℕ) → a < 256 → c < 2 ^ 30 → ltb 256 ((a + c) % 2 ^ 32) ≡ false → a + c ≤ 256
not_past a c p q h = ground (arith, h)

one_fragment :
    (sctrnum nr_sctr : ℕ)
    → page_count sctrnum nr_sctr < 2 ^ 30
    → ltb sce_pageperfrag ((page_off sctrnum + page_count sctrnum nr_sctr) % 2 ^ 32) ≡ false
    → page_off sctrnum + page_count sctrnum nr_sctr ≤ sce_pageperfrag
one_fragment sctrnum nr_sctr small h =
    not_past (page_off sctrnum) (page_count sctrnum nr_sctr) (omega arith) small h

-- the fragment after a hit
abbrev hit_frag : Frag → Frag
hit_frag f = record f {
  nr_hit = u32_add f.nr_hit 1;
  nr_service = u16_inc f.nr_service;
  nr_ref = if ltb f.nr_ref sce_refceiling then f.nr_ref + 1 else f.nr_ref;
}

abbrev hit_state : (i : ℕ) → Loc → Sce → Sce
hit_state i l s =
    let s1 = set_frag l (hit_frag (frag_at s l)) s in
    let s2 =
      set_lun i (record (s1.luntbl i) { nr_service = u32_add (s1.luntbl i).nr_service 1 }) s1 in
    let s3 = record s2 { nr_hit = u32_add s2.nr_hit 1 } in
    let t = (s3.luntbl i).stats in set_stats i (record t { read_hits = u64_add t.read_hits 1 }) s3

lun_held_lem :
    (u : ℕ → Lun) (i k : ℕ) (t : LunStats)
    → let u1 = update u i (record (u i) { nr_service = k }) in
      (update u1 i (record (u1 i) { stats = t }) i).nr_service ≡ k
lun_held_lem u i k t = ground arith

module _ (s : Sce) (ls : List Loc) (i sctrnum nr_sctr : ℕ) (l : Loc) (v : Inv s ls)
    (r : Request sctrnum nr_sctr) (k : Locked (s.luntbl i) sctrnum nr_sctr)
    (m : MapsTo s.cdevtbl s.luntbl i (page_frag sctrnum) l)
    (mapped : is_mapped (desc_in s.luntbl i (page_frag sctrnum)) ≡ true)
    (one : page_off sctrnum + page_count sctrnum nr_sctr ≤ sce_pageperfrag) where
  low : (frag_at s l).fragnum < fragnum_free
  low = omega (
    arith,
    m.fragnum,
    frag_fit (s.luntbl i) sctrnum nr_sctr r k (v.mapped.lengths i),
    (v.mapped.lengths i).small,
  )

  Inv-touch :
      (f : Frag)
      → f.lunidx ≡ (frag_at s l).lunidx
      → f.fragnum ≡ (frag_at s l).fragnum
      → f.bitmap ≡ (frag_at s l).bitmap
      → f.nr_valid ≡ (frag_at s l).nr_valid
      → f.next ≡ (frag_at s l).next
      → Inv (set_frag l f s) ls
  Inv-touch f a b c d e =
      let old = v.used l m.frag low in
      Inv-write s v l f m.frag low a b (record {
        pages = d ∙ old.pages ∙ ap (λ x. clear_in (page x) 0 sce_pageperfrag) (sym c);
        next = e ∙ old.next;
      })

  miss_state : Sce
  miss_state =
      let f = frag_at s l in
      note_miss i (page_frag sctrnum) (set_frag l (record f { nr_miss = u32_add f.nr_miss 1 }) s)

  read_miss :
      (fdesc : ℕ)
      → (read_loc i sctrnum nr_sctr fdesc l s ≡ ok (error, some (fmap_of s l)) miss_state)
      → (out : Ret × Option Fmap) × (s' : Sce) × (read_loc i sctrnum nr_sctr fdesc l s ≡ ok out s')
        × Inv s' ls
        × ReadEnd s i sctrnum nr_sctr out s'
  unfolding miss_state
  read_miss fdesc run =
      let f = frag_at s l in
      let g : Frag = record f { nr_miss = u32_add f.nr_miss 1 } in
      let s1 = set_frag l g s in
      (
        (error, some (fmap_of s l)),
        miss_state,
        run,
        Inv-note_miss s1 i (page_frag sctrnum) (Inv-touch g refl refl refl refl refl),
        miss (some (fmap_of s l)) miss_state,
      )

  -- the check of the pages
  checked :
      frag_isvalid l (page_off sctrnum) (page_count sctrnum nr_sctr) s
      ≡ ok
          (verdict
            (any_in (page (frag_at s l).bitmap) (page_off sctrnum) (page_count sctrnum nr_sctr)))
          s
  checked =
      frag_isvalid-any_in s l (page_off sctrnum) (page_count sctrnum nr_sctr)
        (some_pages (s.luntbl i) sctrnum nr_sctr r k (v.mapped.lengths i)) one

  served-Hit :
      is_valid (desc_in s.luntbl i (page_frag sctrnum)) ≡ true
      → any_in (page (frag_at s l).bitmap) (page_off sctrnum) (page_count sctrnum nr_sctr) ≡ false
      → Inv (hit_state i l s) ls × Hit s i sctrnum nr_sctr l (hit_state i l s)
  served-Hit valid clean =
      let f = frag_at s l in
      let s1 = set_frag l (hit_frag f) s in
      let u = record (s1.luntbl i) { nr_service = u32_add (s1.luntbl i).nr_service 1 } in
      let s2 = set_lun i u s1 in
      let s3 = record s2 { nr_hit = u32_add s2.nr_hit 1 } in
      let v1 : Inv s1 ls = Inv-touch (hit_frag f) refl refl refl refl refl in
      let v2 : Inv s2 ls = Inv-set_lun s1 v1 i u (record {
        fragmap = refl;
        has_fragmap = refl;
        has_scehndl = refl;
        nr_frag = refl;
        nr_sctr = refl;
      }) in
      let v3 = Inv-count_hit s2 (u32_add s2.nr_hit 1) v2 in
      let t = (s3.luntbl i).stats in
      let t' : LunStats = record t { read_hits = u64_add t.read_hits 1 } in
      (
        (set_stats-Kept s3 ls i t' v3).inv,
        record {
          locked = k;
          maps = m;
          mapped = mapped;
          valid = valid;
          one_frag = one;
          clean = λ p h.
              any_in-clear (page f.bitmap) (page_off sctrnum) (page_count sctrnum nr_sctr) p clean
                h;
          held = ap (λ g. g.nr_service) (frag_in-set_self s.cdevtbl l (hit_frag f));
          lun_held = lun_held_lem s.luntbl i (u32_add (s.luntbl i).nr_service 1) t';
        },
      )

  read_loc-End :
      (out : Ret × Option Fmap) × (s' : Sce) × (read_loc i sctrnum nr_sctr
          (desc_in s.luntbl i (page_frag sctrnum))
          l
          s
        ≡ ok out s')
      × Inv s' ls
      × ReadEnd s i sctrnum nr_sctr out s'
  unfolding read_loc miss_state
  read_loc-End =
      let fdesc = desc_in s.luntbl i (page_frag sctrnum) in
      let dirty =
        any_in (page (frag_at s l).bitmap) (page_off sctrnum) (page_count sctrnum nr_sctr) in
      elim (Bool-cases (is_valid fdesc)) [
        | inr ne ↦ read_miss fdesc (rw (ne, read_loc) refl)
        | inl valid ↦ elim (Bool-cases dirty) [
          | inl bad ↦
              let test = checked ∙ ap (λ b. ok (verdict b) s) bad in
              read_miss fdesc (rw (valid, test, read_loc) refl)
          | inr clean ↦
              let test = checked ∙ ap (λ b. ok (verdict b) s) clean in
              let (inv, h) = served-Hit valid clean in
              (
                (success, some (fmap_of s l)),
                hit_state i l s,
                rw (valid, test, read_loc) refl,
                inv,
                hit l (hit_state i l s) h,
              )
        ]
      ]

LunKept-set_stats :
    (s : Sce) (i : ℕ) (t : LunStats) → LunKept (s.luntbl i) ((set_stats i t s).luntbl i)
LunKept-set_stats s i t =
    (Ages-lun s i (record (s.luntbl i) { stats = t }) refl
        (record {
          has_fragmap = refl;
          has_scehndl = refl;
          nr_frag = refl;
          nr_sctr = refl;
          waiting4deletion = refl;
        })).lun
      i

-- A LUN's statistics do not change what a read finds.
ReadEnd-set_stats :
    (s : Sce) (i sctrnum nr_sctr : ℕ) (t : LunStats) (out : Ret × Option Fmap) (s' : Sce)
    → ReadEnd (set_stats i t s) i sctrnum nr_sctr out s'
    → ReadEnd s i sctrnum nr_sctr out s'
ReadEnd-set_stats s i sctrnum nr_sctr t _ _ (miss out s') = miss out s'
ReadEnd-set_stats s i sctrnum nr_sctr t _ _ (hit l s' h) =
    let desc : desc_in (set_stats i t s).luntbl i (page_frag sctrnum)
        ≡ desc_in s.luntbl i (page_frag sctrnum) =
      ap (λ u. u.fragmap (page_frag sctrnum)) (update_self s.luntbl i _) in
    let service : ((set_stats i t s).luntbl i).nr_service ≡ (s.luntbl i).nr_service =
      ap (λ u. u.nr_service) (update_self s.luntbl i _) in
    let m = h.maps in
    let keep = LunKept-set_stats s i t in
    let k = h.locked in
    hit l s' (record {
      locked = record {
        has_scehndl = sym keep.has_scehndl ∙ k.has_scehndl;
        has_fragmap = sym keep.has_fragmap ∙ k.has_fragmap;
        some_sctrs = k.some_sctrs;
        inside = omega (arith, k.inside, keep.nr_sctr);
      };
      maps = record {
        frag = m.frag;
        names = (ap pfid_dev (sym desc) ∙ m.names.0, ap pfid_off (sym desc) ∙ m.names.1);
        lunidx = m.lunidx;
        fragnum = m.fragnum;
      };
      mapped = ap is_mapped (sym desc) ∙ h.mapped;
      valid = ap is_valid (sym desc) ∙ h.valid;
      one_frag = h.one_frag;
      clean = h.clean;
      held = h.held;
      lun_held = h.lun_held ∙ ap (λ x. u32_add x 1) service;
    })

Inv-inc :
    (s : Sce) {ls : List Loc} (i n : ℕ)
    → Inv s ls
    → is_mapped (desc_in s.luntbl i n) ≡ false
    → Inv (set_desc i n (fragdesc_inc (desc_in s.luntbl i n)) s) ls
Inv-inc s i n v un =
    let d = desc_in s.luntbl i n in
    let small = v.mapped.words i n in
    let same : is_mapped (fragdesc_inc d) ≡ is_mapped d = ap (λ q. q % 2 == 1) (omega arith) in
    record {
      list = v.list;
      mapped =
          Mapped-mark v.mapped i n (fragdesc_inc d) same
            (λ h. let bad : true ≡ false = sym h ∙ same ∙ un in absurd (false≢true (sym bad)))
            (omega (arith, small));
      used = v.used;
      devices = v.devices;
    }

-- Under the invariant, `sce_get4read` of a request that does not wrap ends and keeps the invariant and
-- the free list. It succeeds only as `Hit` says: the place is mapped and valid, the request lies in one
-- fragment of the LUN, none of its pages is marked invalid, and the fragment and the LUN are held once more.
pub sce_get4read-ReadEnd :
    (s : Sce) (ls : List Loc) (i sctrnum nr_sctr : ℕ)
    → Inv s ls
    → i < sce_maxlun
    → Request sctrnum nr_sctr
    → (out : Ret × Option Fmap) × (s' : Sce) × (sce_get4read i sctrnum nr_sctr s ≡ ok out s')
      × Inv s' ls
      × ReadEnd s i sctrnum nr_sctr out s'
unfolding sce_get4read
sce_get4read-ReadEnd s ls i sctrnum nr_sctr v hi r =
    elim (Bool-cases (lock_lun (s.luntbl i) sctrnum nr_sctr true)) [
      | inr refused ↦ ((error, none), s, rw (refused, sce_get4read) refl, v, miss none s)
      | inl locked ↦
          let t = (s.luntbl i).stats in
          let t' : LunStats = record t {
            reads = u64_add t.reads 1;
            read_sctrs = u64_add t.read_sctrs nr_sctr;
          } in
          let s1 = set_stats i t' s in
          let kept = set_stats-Kept s ls i t' v in
          let v1 = kept.inv in
          let same = kept.ages.lun i in
          let k = lock_lun-Locked (s.luntbl i) sctrnum nr_sctr true r locked in
          let k1 : Locked (s1.luntbl i) sctrnum nr_sctr = record {
            has_scehndl = same.has_scehndl ∙ k.has_scehndl;
            has_fragmap = same.has_fragmap ∙ k.has_fragmap;
            some_sctrs = k.some_sctrs;
            inside = omega (arith, k.inside, same.nr_sctr);
          } in
          let n = page_frag sctrnum in
          let in_map = frag_fit (s1.luntbl i) sctrnum nr_sctr r k1 (v1.mapped.lengths i) in
          let in_map_test = lt→ltb n (s1.luntbl i).nr_frag in_map in
          elim (Bool-cases
            (ltb sce_pageperfrag ((page_off sctrnum + page_count sctrnum nr_sctr) % 2 ^ 32))) [
              | inl long ↦
                  ((error, none), s1, rw (locked, long, sce_get4read) refl, v1, miss none s1)
              | inr short ↦
                  let one : page_off sctrnum + page_count sctrnum nr_sctr ≤ sce_pageperfrag =
                    one_fragment sctrnum nr_sctr
                      (omega (
                        arith,
                        count_lem (s1.luntbl i) sctrnum nr_sctr r k1 (v1.mapped.lengths i),
                        r.width,
                      ))
                      short in
                  elim (Bool-cases (is_mapped (desc_in s1.luntbl i n))) [
                    | inr un ↦
                        let d = fragdesc_inc (desc_in s1.luntbl i n) in
                        let s2 = set_desc i n d s1 in
                        (
                          (error, none),
                          note_miss i n s2,
                          rw (locked, short, in_map_test, un, sce_get4read) refl,
                          Inv-note_miss s2 i n (Inv-inc s1 i n v1 un),
                          miss none (note_miss i n s2),
                        )
                    | inl mapped ↦
                        let (l, m) = v1.mapped.forward i n hi k1.has_fragmap in_map mapped in
                        let found = pfid2frag-Names s1 (desc_in s1.luntbl i n) l m.names m.frag in
                        let (out, s', run, inv, e) =
                          read_loc-End s1 ls i sctrnum nr_sctr l v1 r k1 m mapped one in
                        (
                          out,
                          s',
                          rw (locked, short, in_map_test, mapped, found, sce_get4read) run,
                          inv,
                          ReadEnd-set_stats s i sctrnum nr_sctr t' out s' e,
                        )
                  ]
            ]
    ]
