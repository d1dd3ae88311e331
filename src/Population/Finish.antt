-- ===== src/Population/Finish.antt =====
-- `_complete_population` and `_cancel_population` give back what `_alloc4population` took.
use iostash.Prelude.{
  ℕ, ◌^◌, ◌≤◌, ◌<◌, ◌≡◌, ◌≢◌, true, false, ◌&&◌, ◌||◌, not, arith, ◌==◌, ltb, refl, List, ◌∷◌, ap,
  ◌∙◌, Bool-cases, inl, inr, ◌/◌, ◌%◌, update,
}
use iostash.Word.{
  is_mapped, is_valid, or_valid, fragdesc_data, fragnum_free, fragnum_withinfreelist, u32_sub,
}
use iostash.State.{
  Sce, Lun, success, ok, Loc, Frag, frag_at, set_frag, set_desc, set_desc_in, set_lun, desc_in,
}
use iostash.State.Access.{frag_in-set_self}
use iostash.Mapping.{in_lun, unmap_frag}
use iostash.Mapping.Laws.{unmap_state, unmap_frag-release, unmap_frag-error, in_use}
use iostash.Population.Alloc.{desc_written}
use iostash.Lun.{lun_gc}
use iostash.Population.{complete_loc, complete_population, cancel_loc, cancel_population}
use iostash.Invariant.{MapsTo, Inv}
use iostash.Invariant.Chain.{IsFrag-set_in}
use iostash.Invariant.Pfid.{pfid2frag-Names}
use iostash.Invariant.Places.Mark.{Mapped-mark}
use iostash.Invariant.Frame.{Inv-write, Inv-set_lun}

-- a fragment that has a valid page, or is not mapped, and a LUN that stays
lun_gc-idle :
    (s : Sce) (lun : ℕ) (l : Loc)
    → ((frag_at s l).nr_valid == 0) ≡ false
    → (s.luntbl lun).waiting4deletion ≡ false
    → lun_gc lun l s ≡ ok success s
unfolding lun_gc
lun_gc-idle s lun l some_valid stays = elim (Bool-cases ((frag_at s l).nr_service == 0)) [
  | inl e ↦ rw (e, some_valid, stays, lun_gc)
  | inr ne ↦ rw (ne, stays, lun_gc)
]

-- The LUN after it is released.
abbrev pub drop_lun : ℕ → Sce → Sce
drop_lun lun s =
    set_lun lun (record (s.luntbl lun) { nr_service = u32_sub (s.luntbl lun).nr_service 1 }) s

abbrev pub rest_frag : Loc → Sce → Sce
rest_frag l s = set_frag l (record (frag_at s l) { nr_service = 0 }) s

-- The state after a completion.
abbrev pub completed : (lun fragnum : ℕ) → Loc → Sce → Sce
completed lun fragnum l s =
    drop_lun lun (rest_frag l (set_desc lun fragnum (or_valid (desc_in s.luntbl lun fragnum)) s))

waiting_kept :
    (u : ℕ → Lun) (i n d x : ℕ)
    → (update
        (set_desc_in u i n d)
        i
        (record (set_desc_in u i n d i) { nr_service = x })
        i).waiting4deletion
      ≡ (u i).waiting4deletion
waiting_kept u i n d x = ground arith

is_valid-or_valid : (d : ℕ) → is_valid (or_valid d) ≡ true
is_valid-or_valid d = let bit : or_valid d / 2 ^ 30 % 2 ≡ 1 = omega arith in ap (λ q. q == 1) bit

data_unmapped : (n : ℕ) → is_mapped (fragdesc_data n) ≡ false
data_unmapped n = ground arith

-- a fragment that is in the free list
lun_gc-free :
    (s : Sce) (lun : ℕ) (l : Loc)
    → (in_lun (s.luntbl lun) (frag_at s l).fragnum) ≡ false
    → (s.luntbl lun).waiting4deletion ≡ false
    → lun_gc lun l s ≡ ok success s
unfolding lun_gc
lun_gc-free s lun l out stays =
    let no_unmap = unmap_frag-error s lun (frag_at s l).fragnum (rw out refl) in
    elim (Bool-cases ((frag_at s l).nr_service == 0 && (frag_at s l).nr_valid == 0)) [
      | inl e ↦ rw (e, no_unmap, stays, lun_gc)
      | inr ne ↦ rw (ne, stays, lun_gc)
    ]

in_lun-past : (u : Lun) (n : ℕ) → u.nr_frag ≤ n → in_lun u n ≡ false
in_lun-past u n h = ground (arith, h)

nr_frag_kept :
    (u : ℕ → Lun) (i n d x : ℕ)
    → (update (set_desc_in u i n d) i (record (set_desc_in u i n d i) { nr_service = x }) i).nr_frag
      ≡ (u i).nr_frag
nr_frag_kept u i n d x = ground arith

-- The state after a cancellation.
abbrev pub cancelled : (lun fragnum : ℕ) → Loc → Sce → Sce
cancelled lun fragnum l s = drop_lun lun (unmap_state lun fragnum l (rest_frag l s))

module _ {s : Sce} {ls : List Loc} (v : Inv s ls) (lun fragnum : ℕ) (l : Loc)
    (inside : in_lun (s.luntbl lun) fragnum ≡ true)
    (mapped : is_mapped (desc_in s.luntbl lun fragnum) ≡ true)
    (m : MapsTo s.cdevtbl s.luntbl lun fragnum l)
    (pending : is_valid (desc_in s.luntbl lun fragnum) ≡ false)
    (held : (frag_at s l).nr_service ≡ 1) (stays : (s.luntbl lun).waiting4deletion ≡ false) where
  low : (frag_at s l).fragnum < fragnum_free
  low = in_use v lun fragnum l inside mapped m

  next : (frag_at s l).next ≡ 0
  next = (v.used l m.frag low).next

  -- the guard that both functions have
  one_service : (ltb 0 (frag_at s l).next || not ((frag_at s l).nr_service == 1)) ≡ false
  one_service = ground (arith, next, held)

  Inv-mark : Inv (set_desc lun fragnum (or_valid (desc_in s.luntbl lun fragnum)) s) ls
  Inv-mark =
      let small = v.mapped.words lun fragnum in
      record {
        list = v.list;
        mapped =
            Mapped-mark v.mapped lun fragnum (or_valid (desc_in s.luntbl lun fragnum))
              (ap (λ q. q % 2 == 1) (omega arith)) (λ h. (omega arith, omega arith))
              (omega (arith, small));
        used = v.used;
        devices = v.devices;
      }

  -- Under the invariant, for a place that is mapped but not valid, whose fragment is held by one
  -- service and has a valid page, and a LUN that is not to be deleted: `_complete_population`
  -- succeeds, marks the place valid, releases the fragment and the LUN, and keeps the invariant.
  pub complete_population-completed :
      (frag_at s l).nr_valid ≢ 0
      → (complete_population lun fragnum s ≡ ok success (completed lun fragnum l s))
        × Inv (completed lun fragnum l s) ls
        × (is_valid (desc_in (completed lun fragnum l s).luntbl lun fragnum) ≡ true)
  unfolding complete_population complete_loc
  complete_population-completed some_valid =
      let d = or_valid (desc_in s.luntbl lun fragnum) in
      let s1 = set_desc lun fragnum d s in
      let s2 = rest_frag l s1 in
      let f : Frag = record (frag_at s l) { nr_service = 0 } in
      let self : frag_at (completed lun fragnum l s) l ≡ f = frag_in-set_self s.cdevtbl l f in
      let gc =
        lun_gc-idle (completed lun fragnum l s) lun l
          (ap (λ g. g.nr_valid == 0) self ∙ ground (arith, some_valid))
          (waiting_kept s.luntbl lun fragnum d _ ∙ stays) in
      let found = pfid2frag-Names s (desc_in s.luntbl lun fragnum) l m.names m.frag in
      let v2 : Inv s2 ls =
        Inv-write s1 Inv-mark l f m.frag low refl refl
          (record { pages = (v.used l m.frag low).pages; next = next }) in
      (
        rw (inside, mapped, found, pending, one_service, complete_population) gc,
        Inv-set_lun s2 v2 lun _ (record {
          fragmap = refl;
          has_fragmap = refl;
          has_scehndl = refl;
          nr_frag = refl;
          nr_sctr = refl;
        }),
        ap is_valid (desc_written s.luntbl lun fragnum d _)
            ∙ is_valid-or_valid (desc_in s.luntbl lun fragnum),
      )

  Inv-rest : Inv (rest_frag l s) ls
  Inv-rest =
      Inv-write s v l (record (frag_at s l) { nr_service = 0 }) m.frag low refl refl
        (record { pages = (v.used l m.frag low).pages; next = next })

  MapsTo-rest : MapsTo (rest_frag l s).cdevtbl s.luntbl lun fragnum l
  MapsTo-rest =
      let f : Frag = record (frag_at s l) { nr_service = 0 } in
      let self = frag_in-set_self s.cdevtbl l f in
      record {
        frag = IsFrag-set_in s.cdevtbl l l f m.frag;
        names = m.names;
        lunidx = ap (λ g. g.lunidx) self ∙ m.lunidx;
        fragnum = ap (λ g. g.fragnum) self ∙ m.fragnum;
      }

  unmap_rest :
      (unmap_frag lun fragnum (rest_frag l s)
        ≡ ok success (unmap_state lun fragnum l (rest_frag l s)))
      × Inv (unmap_state lun fragnum l (rest_frag l s)) (l ∷ ls)
  unmap_rest = unmap_frag-release Inv-rest lun fragnum l inside mapped MapsTo-rest (
      ap (λ g. g.nr_service)
        (frag_in-set_self s.cdevtbl l (record (frag_at s l) { nr_service = 0 })))

  -- Under the invariant, for a place that is mapped but not valid, whose fragment is held by one
  -- service, and a LUN that is not to be deleted: `_cancel_population` succeeds, leaves the place
  -- unmapped and the fragment at the head of the free list, releases the LUN, and keeps the invariant.
  pub cancel_population-cancelled :
      (cancel_population lun fragnum s ≡ ok success (cancelled lun fragnum l s))
      × Inv (cancelled lun fragnum l s) (l ∷ ls)
      × (is_mapped (desc_in (cancelled lun fragnum l s).luntbl lun fragnum) ≡ false)
  unfolding cancel_population cancel_loc
  cancel_population-cancelled =
      let (run, inv) = unmap_rest in
      let s1 = rest_frag l s in
      let s2 = unmap_state lun fragnum l s1 in
      let s3 = cancelled lun fragnum l s in
      let d = fragdesc_data (frag_at s1 l).nr_miss in
      let free : (frag_at s3 l).fragnum ≡ fragnum_withinfreelist = inv.list.chain.2 in
      let size = nr_frag_kept s.luntbl lun fragnum d (u32_sub (s2.luntbl lun).nr_service 1) in
      let gc =
        lun_gc-free s3 lun l
          (in_lun-past (s3.luntbl lun) _ (omega (arith, free, size, (v.mapped.lengths lun).small)))
          (waiting_kept s.luntbl lun fragnum d _ ∙ stays) in
      let found = pfid2frag-Names s (desc_in s.luntbl lun fragnum) l m.names m.frag in
      (
        rw (inside, mapped, found, pending, one_service, run, cancel_population) gc,
        Inv-set_lun s2 inv lun _ (record {
          fragmap = refl;
          has_fragmap = refl;
          has_scehndl = refl;
          nr_frag = refl;
          nr_sctr = refl;
        }),
        ap is_mapped (desc_written s.luntbl lun fragnum d (u32_sub (s2.luntbl lun).nr_service 1))
            ∙ data_unmapped (frag_at s1 l).nr_miss,
      )
