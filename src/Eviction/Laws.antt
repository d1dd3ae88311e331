-- ===== src/Eviction/Laws.antt =====
-- The CLOCK arm and `_evict_frag` under the engine's invariant.
use mathlib.Core.Path.{subst}
use iostash.Prelude.{
  ℕ, suc, zero, ◌-◌, ◌%◌, ◌≤◌, ◌<◌, ◌≡◌, true, false, ◌&&◌, arith, if◌then◌else◌, ◌==◌, ltb, refl,
  List, ◌∷◌, ap, ◌∙◌, sym, Bool-cases, inl, inr, some, lt→ltb, Option-cases, Option, ==_iff,
  update_self,
}
use iostash.Word.{is_mapped, fragdesc_data, fragnum_free, pfid_dev, pfid_off}
use iostash.State.{
  Sce, Lun, Ret, success, error, ok, Loc, Frag, frag_at, set_frag, desc_in, set_desc_in,
}
use iostash.Mapping.{in_lun}
use iostash.Mapping.Laws.{unmap_state, unmap_frag-release}
use iostash.Invariant.Slots.{Attached-small}
use iostash.Invariant.{IsFrag, MapsTo, Inv}
use iostash.Invariant.Places.{desc_in-set}
use iostash.Invariant.Frame.{Inv-write}
use iostash.Eviction.{evict_rounds, advance_clockarm, evict_loop, evict_frag}

some_inj {ℓ} : {A : Type ℓ} {a b : A} → some a ≡ some b → a ≡ b
some_inj h = cc

mod_lt : (a n : ℕ) → 0 < n → a % n < n
mod_lt a n h = omega arith

mod_small : (a n : ℕ) → 0 < n → n ≤ 16 → a % n < 16
mod_small a n h p = omega arith

-- The arm changes nothing but itself, and what it points at is a fragment.
pub record Advanced (s : Sce) (out : Option Loc × Sce) : Type 0 where
  pub arm_only : out.1 ≡ record s { arm = out.1.arm }
  pub points : (l : Loc) → out.0 ≡ some l → IsFrag s.cdevtbl l

-- Under the invariant the step of the CLOCK arm changes nothing but the arm, and the pointer that it
-- returns, if any, is to a fragment of a device.
pub advance_clockarm-Advanced :
    (s : Sce) {ls : List Loc} → Inv s ls → Advanced s (advance_clockarm s)
unfolding advance_clockarm
advance_clockarm-Advanced s v =
    let devnum : ℕ = pfid_dev s.arm % s.nr_cdev in
    let small = Attached-small v.devices in
    elim (Bool-cases (s.nr_cdev == 0)) [
      | inl e ↦ rw e (record { arm_only = refl; points = λ l h. absurd (ground arith) })
      | inr ne ↦ elim (Bool-cases ((s.cdevtbl devnum).nr_frag == 0)) [
        | inl e ↦ rw (ne, e) (record { arm_only = refl; points = λ l h. absurd (ground arith) })
        | inr ne' ↦
            rw (ne, ne')
              (record {
                arm_only = refl;
                points = λ l h. subst (IsFrag s.cdevtbl) (some_inj h) (record {
                  dev = mod_small (pfid_dev s.arm) s.nr_cdev (ground arith) small;
                  table = v.list.tables devnum (ground arith);
                  off = mod_lt (pfid_off s.arm) (s.cdevtbl devnum).nr_frag (ground arith);
                });
              })
      ]
    ]

-- What other code sees of an eviction: of the LUNs only descriptors change, and none gets mapped.
pub record Frame (s s' : Sce) : Type 0 where
  pub lun : (j : ℕ) → s'.luntbl j ≡ record (s.luntbl j) { fragmap = (s'.luntbl j).fragmap }
  pub unmapped :
      (j m : ℕ)
      → is_mapped (desc_in s.luntbl j m) ≡ false
      → is_mapped (desc_in s'.luntbl j m) ≡ false

Frame-refl : (s : Sce) → Frame s s
Frame-refl s = record { lun = λ j. refl; unmapped = λ j m h. h }

Frame-arm : (s : Sce) (a : ℕ) → Frame s (record s { arm = a })
Frame-arm s a = record { lun = λ j. refl; unmapped = λ j m h. h }

Frame-frag : (s : Sce) (l : Loc) (f : Frag) → Frame s (set_frag l f s)
Frame-frag s l f = record { lun = λ j. refl; unmapped = λ j m h. h }

Frame-trans : (a b c : Sce) → Frame a b → Frame b c → Frame a c
Frame-trans a b c p q = record {
  lun = λ j. q.lun j ∙ ap (λ (l : Lun). record l { fragmap = (c.luntbl j).fragmap }) (p.lun j);
  unmapped = λ j m h. q.unmapped j m (p.unmapped j m h);
}

data-unmapped : (n : ℕ) → is_mapped (fragdesc_data n) ≡ false
data-unmapped n = ground arith

Frame-unmap : (s : Sce) (i n : ℕ) (l : Loc) → Frame s (unmap_state i n l s)
Frame-unmap s i n l = record {
  lun = λ j. elim (Bool-cases (j == i)) [
    | inl e ↦
        subst
          (λ x.
            set_desc_in s.luntbl i n (fragdesc_data (frag_at s l).nr_miss) x ≡ record (s.luntbl x) {
              fragmap = (set_desc_in s.luntbl i n (fragdesc_data (frag_at s l).nr_miss) x).fragmap;
            })
          (sym ((==_iff j i).0 e)) (rw (update_self s.luntbl i _) refl)
    | inr ne ↦ rw ne refl
  ];
  unmapped = λ j m h. elim (Bool-cases ((j == i) && (m == n))) [
    | inl here ↦ ap is_mapped (new j m ∙ rw here) ∙ data-unmapped (frag_at s l).nr_miss
    | inr ne ↦ ap is_mapped (new j m ∙ rw ne) ∙ h
  ];
}
  where
    new :
        (j m : ℕ)
        → desc_in (unmap_state i n l s).luntbl j m ≡ (
            if (j == i) && (m == n)
            then fragdesc_data (frag_at s l).nr_miss
            else desc_in s.luntbl j m)
    new j m = desc_in-set s.luntbl i n (fragdesc_data (frag_at s l).nr_miss) j m

-- The invariant does not read the arm.
Inv-arm : (s : Sce) {ls : List Loc} (a : ℕ) → Inv s ls → Inv (record s { arm = a }) ls
Inv-arm s a v = record { list = v.list; mapped = v.mapped; used = v.used; devices = v.devices }

-- A fragment in use is mapped where its back pointer says.
pub MapsTo-of_use :
    (s : Sce) {ls : List Loc} (l : Loc)
    → Inv s ls
    → IsFrag s.cdevtbl l
    → (frag_at s l).fragnum < fragnum_free
    → (in_lun (s.luntbl (frag_at s l).lunidx) (frag_at s l).fragnum ≡ true)
      × (is_mapped (desc_in s.luntbl (frag_at s l).lunidx (frag_at s l).fragnum) ≡ true)
      × MapsTo s.cdevtbl s.luntbl (frag_at s l).lunidx (frag_at s l).fragnum l
MapsTo-of_use s l v fl low =
    let h = v.mapped.backward l fl low in
    (
      rw (h.map, h.handle, lt→ltb _ _ h.fragnum),
      h.mapped,
      record { frag = fl; names = h.names; lunidx = refl; fragnum = refl },
    )

-- How `_evict_frag` ends: with the fragments `ls'` free, one more if it succeeds.
pub record Evicted (s : Sce) (ls : List Loc) (ret : Ret) (s' : Sce) (ls' : List Loc) : Type 0 where
  pub inv : Inv s' ls'
  pub freed : ret ≡ success → (l : Loc) × (ls' ≡ l ∷ ls)
  pub kept : ret ≡ error → ls' ≡ ls
  pub frame : Frame s s'

evict_loop-Evicted :
    (k : ℕ) (s : Sce) (ls : List Loc)
    → Inv s ls
    → (ret : Ret) × (s' : Sce) × (ls' : List Loc) × (evict_loop k s ≡ ok ret s')
      × Evicted s ls ret s' ls'
unfolding evict_loop
evict_loop-Evicted zero s ls v = (
  error,
  s,
  ls,
  refl,
  record { inv = v; freed = λ h. cc; kept = λ h. refl; frame = Frame-refl s },
)
evict_loop-Evicted (suc k) s ls v =
    let a = advance_clockarm-Advanced s v in
    let s1 = (advance_clockarm s).1 in
    let v1 : Inv s1 ls = subst (λ x. Inv x ls) (sym a.arm_only) (Inv-arm s s1.arm v) in
    let f1 : Frame s s1 = subst (Frame s) (sym a.arm_only) (Frame-arm s s1.arm) in
    elim (Option-cases (advance_clockarm s).0) [
      | inl e ↦ (
        error,
        s1,
        ls,
        rw (e, evict_loop),
        record { inv = v1; freed = λ h. cc; kept = λ h. refl; frame = f1 },
      )
      | inr (l, e) ↦
          let fl : IsFrag s1.cdevtbl l =
            subst (λ x. IsFrag x.cdevtbl l) (sym a.arm_only) (a.points l e) in
          let f : Frag = frag_at s1 l in
          elim (Bool-cases ((ltb f.fragnum fragnum_free && f.nr_service == 0) && f.nr_ref == 0)) [
            | inl hit ↦
                let (inside, mapped, place) = MapsTo-of_use s1 l v1 fl (ground arith) in
                let (run, inv) =
                  unmap_frag-release v1 f.lunidx f.fragnum l inside mapped place (ground arith) in
                (
                  success,
                  unmap_state f.lunidx f.fragnum l s1,
                  l ∷ ls,
                  rw (e, hit, run, evict_loop),
                  record {
                    inv = inv;
                    freed = λ h. (l, refl);
                    kept = λ h. cc;
                    frame = Frame-trans s s1 _ f1 (Frame-unmap s1 f.lunidx f.fragnum l);
                  },
                )
            | inr miss ↦ elim (Bool-cases (ltb f.fragnum fragnum_free && f.nr_service == 0)) [
              | inl idle ↦
                  let g : Frag = record f { nr_ref = f.nr_ref - 1 } in
                  let used = v1.used l fl (ground arith) in
                  let v2 =
                    Inv-write s1 v1 l g fl (ground arith) refl refl
                      (record { pages = used.pages; next = used.next }) in
                  let (ret, s', ls', run, out) = evict_loop-Evicted k (set_frag l g s1) ls v2 in
                  (
                    ret,
                    s',
                    ls',
                    rw (e, miss, idle, evict_loop) run,
                    record {
                      inv = out.inv;
                      freed = out.freed;
                      kept = out.kept;
                      frame =
                          Frame-trans s s1 s' f1
                            (Frame-trans s1 (set_frag l g s1) s' (Frame-frag s1 l g) out.frame);
                    },
                  )
              | inr busy ↦
                  let (ret, s', ls', run, out) = evict_loop-Evicted k s1 ls v1 in
                  (
                    ret,
                    s',
                    ls',
                    rw (e, miss, busy, evict_loop) run,
                    record {
                      inv = out.inv;
                      freed = out.freed;
                      kept = out.kept;
                      frame = Frame-trans s s1 s' f1 out.frame;
                    },
                  )
            ]
          ]
    ]

-- Under the invariant `_evict_frag` ends normally and keeps the invariant. If it succeeds, exactly
-- one more fragment is free, at the head of the list; if it fails the list is as it was. Of the LUNs
-- only descriptors change, and none becomes mapped.
pub evict_frag-Evicted :
    (s : Sce) (ls : List Loc)
    → Inv s ls
    → (ret : Ret) × (s' : Sce) × (ls' : List Loc) × (evict_frag s ≡ ok ret s')
      × Evicted s ls ret s' ls'
unfolding evict_frag
evict_frag-Evicted s ls v = elim (Bool-cases (ltb s.nr_freefrag s.nr_frag)) [
  | inl some_used ↦
      let (ret, s', ls', run, out) = evict_loop-Evicted (evict_rounds s.nr_frag) s ls v in
      (ret, s', ls', rw some_used run, out)
  | inr all_free ↦ (
    error,
    s,
    ls,
    rw all_free,
    record { inv = v; freed = λ h. cc; kept = λ h. refl; frame = Frame-refl s },
  )
]
