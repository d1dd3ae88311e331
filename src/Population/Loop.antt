-- ===== src/Population/Loop.antt =====
-- The loop of `_alloc4population`: two rounds are enough.
use mathlib.Core.Path.{subst}
use iostash.Prelude.{lt→ltb, ◌<◌, ℕ, ◌≡◌, arith, refl, List, [], ◌∷◌, ap, some, none, Option}
use iostash.Word.{fragnum_free, u32_add}
use iostash.State.{Cmd, pure, Sce, Ret, success, error, ok, Loc, frag_at}
use iostash.State.Access.{frag_in-set_self}
use iostash.FreeList.{freefraglist_get}
use iostash.FreeList.Stack.{take_state, taken, freefraglist_get-pop, freefraglist_get-nil}
use iostash.Eviction.{evict_frag}
use iostash.Eviction.Laws.{Frame, Evicted, evict_frag-Evicted}
use iostash.Invariant.Slots.{Attached-set_in}
use iostash.Invariant.{IsFrag, Names, Inv}
use iostash.Invariant.Chain.{IsFrag-set_in}
use iostash.Invariant.Places.{AllInUse-write}
use iostash.Invariant.Frame.{Mapped-spare}
use iostash.Population.{positive, alloc_loop}

-- A fragment taken off the list: neither free nor in use.
pub record Taken (s : Sce) (pf : ℕ) (l : Loc) (s' : Sce) (ls : List Loc) : Type 0 where
  pub inv : Inv s' ls
  pub frag : IsFrag s'.cdevtbl l
  pub spare : (frag_at s' l).fragnum ≡ fragnum_free
  pub names : Names pf l
  pub luns : s'.luntbl ≡ s.luntbl
  pub head : 0 < pf

take-Taken :
    (s : Sce) (l : Loc) (ls : List Loc)
    → Inv s (l ∷ ls)
    → (freefraglist_get s ≡ ok (some s.freefraglist) (take_state l s))
      × Taken s s.freefraglist l (take_state l s) ls
take-Taken s l ls v =
    let (run, list, p) = freefraglist_get-pop s v.list in
    let c = v.list.chain in
    let g = taken (frag_at s l) in
    (
      run,
      record {
        inv = record {
          list = list;
          mapped = Mapped-spare v.mapped l g (omega (arith, c.2)) (omega arith);
          used = AllInUse-write s.cdevtbl l g v.used (λ h. absurd (omega arith));
          devices = Attached-set_in l g v.devices;
        };
        frag = IsFrag-set_in s.cdevtbl l l g c.1;
        spare = ap (λ x. x.fragnum) (frag_in-set_self s.cdevtbl l g);
        names = (p.dev, p.off);
        luns = refl;
        head = omega (arith, p.low);
      },
    )

-- How the loop ends: with a fragment in hand, or with nothing free and nothing evicted.
pub data Got (s : Sce) : Option ℕ → Sce → Type 0 where
  got :
      (pf : ℕ) (l : Loc) (s1 s2 : Sce) (ls : List Loc)
      → Frame s s1
      → Taken s1 pf l s2 ls
      → Got s (some pf) s2
  nothing : (s1 : Sce) → Frame s s1 → Inv s1 [] → Got s none s1

-- The counter of evictions is read by nothing.
abbrev count_eviction : Sce → Sce
count_eviction s = record s { nr_eviction = u32_add s.nr_eviction 1 }

Inv-count_eviction : (s : Sce) {ls : List Loc} → Inv s ls → Inv (count_eviction s) ls
Inv-count_eviction s v = record {
  list = v.list;
  mapped = v.mapped;
  used = v.used;
  devices = v.devices;
}

-- A positive id ends the loop.
gotten :
    (pf : ℕ)
    → 0 < pf
    → (evict : Cmd (Option ℕ)) (s : Sce)
    → (elim (positive (some pf)) as (λ x. Cmd (Option ℕ)) [ none ↦ evict | some p ↦ pure (some p) ])
        s
      ≡ ok (some pf) s
gotten pf h evict s = rw (lt→ltb 0 pf h) refl

alloc_after_evict :
    (s s1 : Sce) (ls1 : List Loc) (ret : Ret)
    → freefraglist_get s ≡ ok none s
    → evict_frag s ≡ ok ret s1
    → Evicted s [] ret s1 ls1
    → (out : Option ℕ) × (s' : Sce) × (alloc_loop 2 s ≡ ok out s') × Got s out s'
unfolding alloc_loop
alloc_after_evict s s1 ls1 success empty run out =
    let (l, e) = out.freed refl in
    let v1 : Inv s1 (l ∷ []) = subst (Inv s1) e out.inv in
    let (run2, t) = take-Taken (count_eviction s1) l [] (Inv-count_eviction s1 v1) in
    (
      some s1.freefraglist,
      take_state l (count_eviction s1),
      rw (empty, run, run2, alloc_loop)
          (gotten s1.freefraglist t.head _ (take_state l (count_eviction s1))),
      got s1.freefraglist l (count_eviction s1) (take_state l (count_eviction s1)) []
          (record { lun = out.frame.lun; unmapped = out.frame.unmapped }) t,
    )
alloc_after_evict s s1 ls1 error empty run out = (
  none,
  s1,
  rw (empty, run, alloc_loop),
  nothing s1 out.frame (subst (Inv s1) (out.kept refl) out.inv),
)

-- Two rounds are enough: the eviction that the first asks for leaves a free fragment.
pub alloc_loop-Got :
    (s : Sce) (ls : List Loc)
    → Inv s ls
    → (out : Option ℕ) × (s' : Sce) × (alloc_loop 2 s ≡ ok out s') × Got s out s'
unfolding alloc_loop
alloc_loop-Got s (l ∷ ls) v =
    let (run, t) = take-Taken s l ls v in
    (
      some s.freefraglist,
      take_state l s,
      rw (run, alloc_loop) (gotten s.freefraglist t.head _ (take_state l s)),
      got s.freefraglist l s (take_state l s) ls (record { lun = λ j. refl; unmapped = λ j m h. h })
          t,
    )
alloc_loop-Got s [] v =
    let empty = freefraglist_get-nil s v.list refl in
    let (ret, s1, ls1, run, out) = evict_frag-Evicted s [] v in
    alloc_after_evict s s1 ls1 ret empty run out
