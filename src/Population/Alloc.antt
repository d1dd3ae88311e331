-- ===== src/Population/Alloc.antt =====
-- `_alloc4population` around its loop: the mapping of the fragment and the services that hold it.
use mathlib.Core.Path.{subst}
use iostash.Prelude.{
  ℕ, ◌+◌, ◌^◌, ◌<◌, ◌≡◌, true, false, arith, refl, List, [], ap, ◌∙◌, sym, some, none, Option,
  update, update_all,
}
use iostash.Word.{sce_maxlun, is_mapped, is_valid, fragdesc_data, fragnum_free, u32_add, u16_inc}
use iostash.State.{
  Sce, Lun, ok, Loc, Frag, frag_at, set_frag, desc_in, set_desc, set_desc_in, set_lun,
}
use iostash.State.Access.{frag_in-set_self}
use iostash.Fragment.Laws.{Counted}
use iostash.Invariant.Pfid.{pfid2frag-Names}
use iostash.Mapping.{in_lun}
use iostash.Mapping.Laws.{Claimed, map_frag-claim, in_lun_lt}
use iostash.Eviction.Laws.{Frame}
use iostash.Invariant.{IsFrag, Names, MapsTo, Inv, InUse}
use iostash.Invariant.Chain.{IsFrag-set_in}
use iostash.Invariant.Frame.{Inv-write, Inv-set_lun}
use iostash.Population.{alloc_loop, alloc4population}
use iostash.Population.Loop.{Taken, Got, got, nothing, alloc_loop-Got}

-- A LUN up to its map and its count of services.
abbrev pub like : (l l' : Lun) → Lun
like l l' = record l { fragmap = l'.fragmap; nr_service = l'.nr_service }

-- What a population task starts from: the fragment is mapped and held by one service, and the LUN
-- is held by one more.
pub record Allocated (s : Sce) (lun fragnum pf : ℕ) (s' : Sce) : Type 0 where
  pub loc : Loc
  pub names : Names pf loc
  pub maps : MapsTo s'.cdevtbl s'.luntbl lun fragnum loc
  pub mapped : is_mapped (desc_in s'.luntbl lun fragnum) ≡ true
  pub held : (frag_at s' loc).nr_service ≡ 1
  pub lun_held : (s'.luntbl lun).nr_service ≡ u32_add (s.luntbl lun).nr_service 1
  pub index : lun < sce_maxlun
  pub inside : in_lun (s'.luntbl lun) fragnum ≡ true
  pub pending : is_valid (desc_in s'.luntbl lun fragnum) ≡ false
  pub luns : (j : ℕ) → s'.luntbl j ≡ like (s.luntbl j) (s'.luntbl j)

pub data Outcome (s : Sce) (lun fragnum : ℕ) : Option ℕ → Sce → Type 0 where
  allocated :
      (pf : ℕ) (s' : Sce) (ls : List Loc)
      → Inv s' ls
      → Allocated s lun fragnum pf s'
      → Outcome s lun fragnum (some pf) s'
  exhausted : (s' : Sce) → Inv s' [] → Outcome s lun fragnum none s'

-- The two services are counted on the mapped fragment and its LUN.
abbrev hold_lun : ℕ → Sce → Sce
hold_lun lun s =
    set_lun lun (record (s.luntbl lun) { nr_service = u32_add (s.luntbl lun).nr_service 1 }) s

abbrev hold : Loc → Sce → Sce
hold l s = set_frag l (record (frag_at s l) { nr_service = u16_inc (frag_at s l).nr_service }) s

-- The state after the mapping of the fragment, `f` being what `_map_frag` makes of it.
abbrev mapped_state : (lun fragnum pf : ℕ) → Loc → Frag → Sce → Sce
mapped_state lun fragnum pf l f s =
    set_desc lun fragnum (2 ^ 31 + fragdesc_data pf) (set_frag l f s)

-- What the loop leaves of the LUN is what `_map_frag` wants.
place_kept :
    (s s2 : Sce) (lun fragnum : ℕ)
    → s2.luntbl lun ≡ record (s.luntbl lun) { fragmap = (s2.luntbl lun).fragmap }
    → in_lun (s.luntbl lun) fragnum ≡ true
    → (in_lun (s2.luntbl lun) fragnum ≡ true)
      × ((s2.luntbl lun).nr_service ≡ (s.luntbl lun).nr_service)
place_kept s s2 lun fragnum e h = (ap (λ u. in_lun u fragnum) e ∙ h, ap (λ u. u.nr_service) e)

-- The descriptor that `_map_frag` writes.
pub desc_written :
    (u : ℕ → Lun) (i n d x : ℕ)
    → (desc_in
        (update (set_desc_in u i n d) i (record (set_desc_in u i n d i) { nr_service = x }))
        i
        n)
      ≡ d
desc_written u i n d x = ground arith

lun_counted :
    (u : ℕ → Lun) (i n d x : ℕ)
    → (update
        (set_desc_in u i n d)
        i
        (record (set_desc_in u i n d i) { nr_service = x })
        i).nr_service
      ≡ x
lun_counted u i n d x = ground arith

service_kept : (u : ℕ → Lun) (i n d : ℕ) → (set_desc_in u i n d i).nr_service ≡ (u i).nr_service
service_kept u i n d = ground arith

-- The writes to a LUN leave the others, and the rest of this one.
luns_kept :
    (u w : ℕ → Lun) (i n d x : ℕ)
    → ((j : ℕ) → w j ≡ like (u j) (w j))
    → (j : ℕ)
    → (let w' =
          update (set_desc_in w i n d) i (record (set_desc_in w i n d i) { nr_service = x }) in
        w' j ≡ like (u j) (w' j))
luns_kept u w i n d x h =
    let P : ℕ → Lun → Type 0 = λ j y. y ≡ like (u j) y in
    let first : (j : ℕ) → P j (set_desc_in w i n d j) =
      update_all P w i (record (w i) { fragmap = update (w i).fragmap n d })
        (ap (λ (y : Lun). record y { fragmap = update (w i).fragmap n d }) (h i)) h in
    update_all P (set_desc_in w i n d) i (record (set_desc_in w i n d i) { nr_service = x })
      (ap (λ (y : Lun). record y { nr_service = x }) (first i)) first

hold-Allocated :
    (s s2 : Sce) (ls : List Loc) (lun fragnum pf : ℕ) (l : Loc) (f : Frag)
    → lun < sce_maxlun
    → in_lun (s.luntbl lun) fragnum ≡ true
    → (s2.luntbl lun).nr_service ≡ (s.luntbl lun).nr_service
    → fragnum < fragnum_free
    → IsFrag s2.cdevtbl l
    → Names pf l
    → Claimed lun fragnum f
    → ((j : ℕ) → s2.luntbl j ≡ like (s.luntbl j) (s2.luntbl j))
    → Inv (mapped_state lun fragnum pf l f s2) ls
    → Outcome s lun fragnum (some pf) (hold l (hold_lun lun (mapped_state lun fragnum pf l f s2)))
hold-Allocated s s2 ls lun fragnum pf l f hi inside service low fl names c luns v =
    let s3 = mapped_state lun fragnum pf l f s2 in
    let s4 = hold_lun lun s3 in
    let s5 = hold l s4 in
    let d = 2 ^ 31 + fragdesc_data pf in
    let self : frag_at s4 l ≡ f = frag_in-set_self s2.cdevtbl l f in
    let num : (frag_at s4 l).fragnum ≡ fragnum = ap (λ g. g.fragnum) (self ∙ c.rest) in
    let idx : (frag_at s4 l).lunidx ≡ lun = ap (λ g. g.lunidx) (self ∙ c.rest) in
    let idle : (frag_at s4 l).nr_service ≡ 0 = ap (λ g. g.nr_service) (self ∙ c.rest) in
    let next : (frag_at s4 l).next ≡ 0 = ap (λ g. g.next) (self ∙ c.rest) in
    let pages : InUse (frag_at s4 l) = record {
      pages = subst Counted (sym self) c.pages;
      next = next;
    } in
    let f5 = record (frag_at s4 l) { nr_service = u16_inc (frag_at s4 l).nr_service } in
    let fl4 = IsFrag-set_in s2.cdevtbl l l f fl in
    let fl5 = IsFrag-set_in s4.cdevtbl l l f5 fl4 in
    let self5 : frag_at s5 l ≡ f5 = frag_in-set_self s4.cdevtbl l f5 in
    let v4 = Inv-set_lun s3 v lun _ (record {
      fragmap = refl;
      has_fragmap = refl;
      has_scehndl = refl;
      nr_frag = refl;
      nr_sctr = refl;
    }) in
    let v5 =
      Inv-write s4 v4 l f5 fl4 (omega (arith, num)) refl refl
        (record { pages = pages.pages; next = next }) in
    let luns5 =
      luns_kept s.luntbl s2.luntbl lun fragnum d
        (u32_add (set_desc_in s2.luntbl lun fragnum d lun).nr_service 1) luns in
    let desc : desc_in s5.luntbl lun fragnum ≡ d = desc_written s2.luntbl lun fragnum d _ in
    allocated pf s5 ls v5 (record {
      loc = l;
      names = names;
      maps = record {
        frag = fl5;
        names = (omega (arith, names.0, desc), omega (arith, names.1, desc));
        lunidx = ap (λ g. g.lunidx) self5 ∙ idx;
        fragnum = ap (λ g. g.fragnum) self5 ∙ num;
      };
      mapped = ap is_mapped desc ∙ ground arith;
      held = ap (λ g. g.nr_service) self5 ∙ ap u16_inc idle;
      lun_held =
          lun_counted s2.luntbl lun fragnum d _
          ∙ ap (λ x. u32_add x 1) (service_kept s2.luntbl lun fragnum d ∙ service);
      index = hi;
      inside = ap (λ u. in_lun u fragnum) (luns5 lun) ∙ inside;
      pending = ap is_valid desc ∙ ground arith;
      luns = luns5;
    })

like_of :
    (l l' : Lun)
    → l' ≡ record l { fragmap = l'.fragmap }
    → record l { fragmap = l'.fragmap } ≡ like l l'
like_of l l' e =
    ap (λ n. record l { fragmap = l'.fragmap; nr_service = n }) (sym (ap (λ x. x.nr_service) e))

-- After the loop: map the fragment and count the two services.
alloc_mapped :
    (s s1 s2 : Sce) (ls : List Loc) (lun fragnum pf : ℕ) (l : Loc)
    → lun < sce_maxlun
    → in_lun (s.luntbl lun) fragnum ≡ true
    → is_mapped (desc_in s.luntbl lun fragnum) ≡ false
    → alloc_loop 2 s ≡ ok (some pf) s2
    → Frame s s1
    → Taken s1 pf l s2 ls
    → (s' : Sce) × (alloc4population lun fragnum s ≡ ok (some pf) s')
      × Outcome s lun fragnum (some pf) s'
unfolding alloc4population
alloc_mapped s s1 s2 ls lun fragnum pf l hi inside un run fr t =
    let same : s2.luntbl lun ≡ record (s.luntbl lun) { fragmap = (s2.luntbl lun).fragmap } =
      subst (λ u. u lun ≡ record (s.luntbl lun) { fragmap = (u lun).fragmap }) (sym t.luns)
        (fr.lun lun) in
    let luns : (j : ℕ) → s2.luntbl j ≡ like (s.luntbl j) (s2.luntbl j) = λ j.
      subst (λ u. u j ≡ like (s.luntbl j) (u j)) (sym t.luns)
        (fr.lun j ∙ like_of (s.luntbl j) (s1.luntbl j) (fr.lun j)) in
    let (inside2, service) = place_kept s s2 lun fragnum same inside in
    let un2 : is_mapped (desc_in s2.luntbl lun fragnum) ≡ false =
      ap (λ u. is_mapped (desc_in u lun fragnum)) t.luns ∙ fr.unmapped lun fragnum un in
    let (f, mrun, inv, c) =
      map_frag-claim s2 lun fragnum pf l t.inv hi inside2 un2 t.frag t.spare t.names in
    let s4 = hold_lun lun (mapped_state lun fragnum pf l f s2) in
    let room = in_lun_lt (s2.luntbl lun) fragnum inside2 in
    (
      hold l s4,
      rw (
        inside,
        run,
        mrun,
        pfid2frag-Names s4 pf l t.names (IsFrag-set_in s2.cdevtbl l l f t.frag),
        alloc4population,
      ),
      hold-Allocated s s2 ls lun fragnum pf l f hi inside service
          (omega (arith, room, (t.inv.mapped.lengths lun).small)) t.frag t.names c luns inv,
    )

-- By how the loop ends.
alloc_by_loop :
    (s : Sce) (lun fragnum : ℕ) (out : Option ℕ) (s2 : Sce)
    → lun < sce_maxlun
    → in_lun (s.luntbl lun) fragnum ≡ true
    → is_mapped (desc_in s.luntbl lun fragnum) ≡ false
    → alloc_loop 2 s ≡ ok out s2
    → Got s out s2
    → (out' : Option ℕ) × (s' : Sce) × (alloc4population lun fragnum s ≡ ok out' s')
      × Outcome s lun fragnum out' s'
unfolding alloc4population
alloc_by_loop s lun fragnum _ _ hi inside un run (got pf l s1 s2 ls fr t) =
    let (s', r, o) = alloc_mapped s s1 s2 ls lun fragnum pf l hi inside un run fr t in
    (some pf, s', r, o)
alloc_by_loop s lun fragnum _ _ hi inside un run (nothing s1 fr v) =
    (none, s1, rw (inside, run, alloc4population), exhausted s1 v)

-- From a state with the invariant, `_alloc4population` of a place inside a LUN that is not mapped
-- ends. Either it gives a fragment, mapped at the place and held by one service, as the LUN is by one
-- more; or it fails, and no fragment is free. The invariant holds afterwards.
pub alloc4population-Outcome :
    (s : Sce) (ls : List Loc) (lun fragnum : ℕ)
    → Inv s ls
    → lun < sce_maxlun
    → in_lun (s.luntbl lun) fragnum ≡ true
    → is_mapped (desc_in s.luntbl lun fragnum) ≡ false
    → (out : Option ℕ) × (s' : Sce) × (alloc4population lun fragnum s ≡ ok out s')
      × Outcome s lun fragnum out s'
alloc4population-Outcome s ls lun fragnum v hi inside un =
    let (out, s2, run, g) = alloc_loop-Got s ls v in
    alloc_by_loop s lun fragnum out s2 hi inside un run g
