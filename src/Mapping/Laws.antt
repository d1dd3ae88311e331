-- ===== src/Mapping/Laws.antt =====
-- `_unmap_frag` and `_map_frag` under the engine's invariant, on every branch.
use mathlib.Core.Path.{subst}
use iostash.Prelude.{
  ℕ, ◌+◌, ◌%◌, ◌^◌, ◌≤◌, ◌<◌, ◌≡◌, ◌≢◌, true, false, ◌&&◌, arith, refl, List, ◌∷◌, ap, ◌∙◌, sym,
  Bool-cases, inl, inr, some, le→ltb, lt→ltb, Option-cases,
}
use iostash.Word.{sce_maxlun, is_mapped, fragdesc_data, fragnum_free}
use iostash.State.{Sce, Lun, success, error, ok, Loc, Frag, frag_at, set_frag, desc_in, set_desc}
use iostash.State.Access.{frag_in-set_self, set_in-set_in}
use iostash.Fragment.{frag_init, new_frag}
use iostash.Fragment.Laws.{Counted, new_frag-Counted, frag_invalidate-Invalidated}
use iostash.FreeList.Stack.{put_state, freefraglist_put-push, FreeListIn-write}
use iostash.Invariant.Slots.{Attached-set_in}
use iostash.Invariant.{IsFrag, Names, MapsTo, Inv, Sized}
use iostash.Invariant.Pfid.{pfid2frag-Names, isvalidpfid-Names}
use iostash.Invariant.Places.Release.{Mapped-release}
use iostash.Invariant.Places.Claim.{Mapped-claim}
use iostash.Invariant.Places.{AllInUse-write}
use iostash.Mapping.{in_lun, unmap_frag, unmap_loc, map_frag, map_loc, tail_pages, invalidate_tail}

pub in_lun_lt : (l : Lun) (n : ℕ) → in_lun l n ≡ true → n < l.nr_frag
in_lun_lt l n h = ground arith

-- The state after a successful unmap of the fragment `l`.
abbrev pub unmap_state : (i n : ℕ) → Loc → Sce → Sce
unmap_state i n l s =
    set_desc i n (fragdesc_data (frag_at s l).nr_miss) (put_state (desc_in s.luntbl i n) l s)

-- Outside a LUN, and at a place that is not mapped, `_unmap_frag` is an error and changes nothing.
pub unmap_frag-error :
    (s : Sce) (i n : ℕ)
    → (in_lun (s.luntbl i) n && is_mapped (desc_in s.luntbl i n)) ≡ false
    → unmap_frag i n s ≡ ok error s
unfolding unmap_frag
unmap_frag-error s i n h = elim (Bool-cases (in_lun (s.luntbl i) n)) [
  | inl inside ↦
      let out : is_mapped (desc_in s.luntbl i n) ≡ false = rw inside at h in
      rw (inside, out, unmap_frag)
  | inr outside ↦ rw (outside, unmap_frag)
]

module _ {s : Sce} {ls : List Loc} (v : Inv s ls) (i n : ℕ) (l : Loc)
    (inside : in_lun (s.luntbl i) n ≡ true) (mapped : is_mapped (desc_in s.luntbl i n) ≡ true)
    (m : MapsTo s.cdevtbl s.luntbl i n l) where
  pub in_use : (frag_at s l).fragnum < fragnum_free
  in_use = omega (arith, m.fragnum, (v.mapped.lengths i).small, in_lun_lt (s.luntbl i) n inside)

  -- Under the invariant `_unmap_frag` of a mapped fragment that serves a request is an error and
  -- changes nothing.
  pub unmap_frag-busy : 0 < (frag_at s l).nr_service → unmap_frag i n s ≡ ok error s
  unfolding unmap_frag unmap_loc
  unmap_frag-busy busy =
      rw (inside, mapped, pfid2frag-Names s _ l m.names m.frag, lt→ltb 0 _ busy, unmap_frag)

  -- Under the invariant `_unmap_frag` of a mapped fragment that serves no request succeeds, pushes the
  -- fragment on the free list, leaves its miss count in the descriptor, and keeps the invariant.
  pub unmap_frag-release :
      (frag_at s l).nr_service ≡ 0
      → (unmap_frag i n s ≡ ok success (unmap_state i n l s)) × Inv (unmap_state i n l s) (l ∷ ls)
  unfolding unmap_frag unmap_loc
  unmap_frag-release idle =
      let found = pfid2frag-Names s (desc_in s.luntbl i n) l m.names m.frag in
      let (put, list) =
        freefraglist_put-push s v.list (desc_in s.luntbl i n) l (v.mapped.words i n) found
          (omega (arith, in_use)) in
      let miss = (frag_at s l).nr_miss in
      (
        rw (
          inside,
          mapped,
          found,
          le→ltb 0 (frag_at s l).nr_service (omega (arith, idle)),
          put,
          unmap_frag,
        ),
        record {
          list = list;
          mapped =
              Mapped-release v.mapped i n (fragdesc_data miss) l _ m (omega arith) (ground arith)
                (omega arith);
          used = AllInUse-write s.cdevtbl l _ v.used (λ h. absurd (omega arith));
          devices = Attached-set_in l _ v.devices;
        },
      )

-- A fragment that `_frag_init` and the invalidation of a LUN's tail have set up.
pub record Fresh (f : Frag) : Type 0 where
  pub pages : Counted f
  pub rest : f ≡ record new_frag { bitmap = f.bitmap; nr_valid = f.nr_valid }

Fresh-new : Fresh new_frag
Fresh-new = record { pages = new_frag-Counted; rest = refl }

-- The pages past a LUN's end lie in the fragment.
tail_pages_fit :
    (u : Lun) (n a c : ℕ) → Sized u → tail_pages u n ≡ some (a, c) → (c ≢ 0) × (a + c ≤ 256)
tail_pages_fit u n a c z e = ground (arith, z.small, z.fits)

invalidate_tail-Fresh :
    (s : Sce) (l : Loc) (u : Lun) (n : ℕ)
    → Sized u
    → (f : Frag) × (invalidate_tail l (tail_pages u n) (set_frag l new_frag s)
        ≡ ok tt (set_frag l f s))
      × Fresh f
invalidate_tail-Fresh s l u n z = elim (Option-cases (tail_pages u n)) [
  | inl e ↦ (new_frag, rw e, Fresh-new)
  | inr (p, e) ↦
      let s' = set_frag l new_frag s in
      let self = frag_in-set_self s.cdevtbl l new_frag in
      let (nz, fit) = tail_pages_fit u n p.0 p.1 z e in
      let (f, k, run, inv) =
        frag_invalidate-Invalidated s' l p.0 p.1 (subst Counted (sym self) new_frag-Counted) nz
          fit in
      (
        f,
        rw (e, run, set_in-set_in s.cdevtbl l new_frag f),
        record {
          pages = inv.counted;
          rest =
              inv.rest
              ∙ ap (λ (g : Frag). record g { bitmap = f.bitmap; nr_valid = f.nr_valid }) self;
        },
      )
]

-- What `_map_frag` makes of the fragment: it points back, is idle and not linked, and its count of
-- valid pages is that of its bitmap.
pub record Claimed (i n : ℕ) (f : Frag) : Type 0 where
  pub pages : Counted f
  pub rest :
      f ≡ record new_frag { lunidx = i; fragnum = n; bitmap = f.bitmap; nr_valid = f.nr_valid }

map_loc-Claimed :
    (s : Sce) (i n pf : ℕ) (l : Loc)
    → i < sce_maxlun
    → Sized (s.luntbl i)
    → (f : Frag) × (map_loc i n pf l s
        ≡ ok success (set_desc i n (2 ^ 31 + fragdesc_data pf) (set_frag l f s)))
      × Claimed i n f
unfolding map_loc frag_init
map_loc-Claimed s i n pf l hi z =
    let (f, run, fresh) = invalidate_tail-Fresh s l (s.luntbl i) n z in
    let f' : Frag = record f { lunidx = i; fragnum = n } in
    let index : i % 2 ^ 16 ≡ i = omega arith in
    (
      f',
      rw (run, frag_in-set_self s.cdevtbl l f, index, set_in-set_in s.cdevtbl l f f'),
      record {
        pages = fresh.pages;
        rest = ap (λ (g : Frag). record g { lunidx = i; fragnum = n }) fresh.rest;
      },
    )

-- Under the invariant `_map_frag` of a fragment that is neither in use nor free, at a place inside a
-- LUN that is not mapped, succeeds and keeps the invariant. The fragment then points back to the place,
-- is idle and not linked, and counts its valid pages.
pub map_frag-claim :
    (s : Sce) {ls : List Loc} (i n pf : ℕ) (l : Loc)
    → Inv s ls
    → i < sce_maxlun
    → in_lun (s.luntbl i) n ≡ true
    → is_mapped (desc_in s.luntbl i n) ≡ false
    → IsFrag s.cdevtbl l
    → (frag_at s l).fragnum ≡ fragnum_free
    → Names pf l
    → (f : Frag) × (map_frag i n pf s
        ≡ ok success (set_desc i n (2 ^ 31 + fragdesc_data pf) (set_frag l f s)))
      × Inv (set_desc i n (2 ^ 31 + fragdesc_data pf) (set_frag l f s)) ls
      × Claimed i n f
unfolding map_frag
map_frag-claim s {ls} i n pf l v hi inside un fl spare names =
    let (f, run, c) = map_loc-Claimed s i n pf l hi (v.mapped.lengths i) in
    let num : f.fragnum ≡ n = ap (λ g. g.fragnum) c.rest in
    let lun : f.lunidx ≡ i = ap (λ g. g.lunidx) c.rest in
    let room = in_lun_lt (s.luntbl i) n inside in
    let small = (v.mapped.lengths i).small in
    (
      f,
      rw (inside, isvalidpfid-Names s pf l names fl, un, pfid2frag-Names s pf l names fl, map_frag)
          run,
      record {
        list = FreeListIn-write v.list l f fl (omega arith) (omega arith);
        mapped =
            Mapped-claim v.mapped i n (2 ^ 31 + fragdesc_data pf) l f hi (ground arith)
              (ground arith) room un fl (omega arith) lun num (ground arith) (omega arith)
              (omega arith);
        used =
            AllInUse-write s.cdevtbl l f v.used
              (λ h. record { pages = c.pages; next = ap (λ g. g.next) c.rest });
        devices = Attached-set_in l f v.devices;
      },
      c,
    )
