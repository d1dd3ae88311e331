-- ===== src/Interface/Config/Added.antt =====
-- `sce_addcdev` and the invariant.
use mathlib.Core.Path.{subst}
use iostash.Prelude.{
  ℕ, ◌+◌, ◌/◌, ◌%◌, ◌^◌, ◌≤◌, ◌<◌, ◌≡◌, ◌==◌, Bool, true, false, ◌||◌, ltb, leb, arith, refl, ap,
  ◌∙◌, sym, Option, some, none, List, Bool-cases, Option-cases, inl, inr, ==_iff, update,
  update_self,
}
use iostash.Word.{sce_maxcdev, sce_sctrperfrag, u32_add}
use iostash.State.{Sce, Cdev, Cdevs, success, error, ok, Loc, at, frag_in}
use iostash.Cdev.{no_cdev, cdev_init, cdev_destroy, cdev_search}
use iostash.Invariant.Slots.{Attached-same, Attached-update}
use iostash.Invariant.{FreeListIn, Inv, Attached}
use iostash.FreeList.Stack.{total_small}
use iostash.Interface.Config.{sce_addcdev, add_at, add_device, put_all, first_unused}
use iostash.Interface.Config.Luns.{first_unused-free, some_inj}
use iostash.Interface.Config.Loading.{Loading, put_all-Loading}
use iostash.Interface.Config.Devices.{
  Inv-Keeps, Keeps-new, back_new, not_here, no_frags, FreeListIn-new,
}

module _ (s : Sce) (ls : List Loc) (v : Inv s ls) (d : ℕ) (hd : d < sce_maxcdev)
    (empty : (s.cdevtbl d).has_fragtbl ≡ false) where
  -- a slot without fragments
  add_nothing :
      (c : Cdev)
      → c.nr_frag ≡ 0
      → c.has_scehndl ≡ false
      → c.has_fragtbl ≡ false
      → Inv (record s { cdevtbl = update s.cdevtbl d c }) ls
  add_nothing c none_there no_handle no_table =
      let new = update s.cdevtbl d c in
      let list =
        FreeListIn-new v.list d c hd empty (λ o p. absurd (omega (arith, p, none_there)))
          (omega (arith, none_there)) (λ p. absurd (omega (arith, p, none_there))) in
      let same : s.nr_frag + c.nr_frag ≡ s.nr_frag = omega (arith, none_there) in
      Inv-Keeps s (record s { cdevtbl = new }) ls ls v
        (subst (λ n. FreeListIn new s.freefraglist s.nr_freefrag n ls) same list) refl
        (Attached-update s.nr_cdev d c hd (no_handle ∙ sym no_table) (ground arith) v.devices)
        (Keeps-new v.list d c hd empty)
        (λ l f low. elim (Bool-cases (l.dev == d)) [
          | inr ne ↦ back_new v.list d c hd empty l ne f
          | inl e ↦
              let here : new l.dev ≡ c =
                ap new ((==_iff l.dev d).0 e) ∙ update_self s.cdevtbl d c in
              absurd (omega (arith, subst (λ x. l.off < x.nr_frag) here f.off, none_there))
        ])

  -- the device that is loaded, with `n` fragments
  abbrev device : (n cdctx : ℕ) → Cdev
  device n cdctx = record no_cdev {
    has_scehndl = true;
    nr_frag = n;
    has_fragtbl = true;
    cdevctx = cdctx;
  }

  abbrev begun : (n cdctx : ℕ) → Sce
  begun n cdctx = record s {
    cdevtbl = update s.cdevtbl d (device n cdctx);
    nr_cdev = u32_add s.nr_cdev 1;
    nr_frag = u32_add s.nr_frag n;
  }

  module _ (n cdctx : ℕ) (small : n ≤ 2 ^ 24) (room : s.nr_cdev < sce_maxcdev) where
    abbrev c : Cdev
    c = device n cdctx

    abbrev new : Cdevs
    new = update s.cdevtbl d c

    at_d : new d ≡ c
    at_d = update_self s.cdevtbl d c

    begun-list : FreeListIn new s.freefraglist s.nr_freefrag (u32_add s.nr_frag n) ls
    begun-list =
        let most = total_small v.list in
        let sum : s.nr_frag + n ≡ u32_add s.nr_frag n = omega (arith, most, small) in
        subst (λ x. FreeListIn new s.freefraglist s.nr_freefrag x ls) sum
          (FreeListIn-new v.list d c hd empty (λ o p. omega arith) small (λ p. refl))

    Loading-begun : Loading new d n new
    Loading-begun = record {
      sizes = λ j. refl;
      tables = λ j. refl;
      handles = λ j. refl;
      others = λ l h. refl;
      todo = λ o p e.
          let full = ap (λ x. (x.fragtbl o).fragnum) at_d in absurd (omega (arith, full, e));
      done = λ o p q. absurd (omega (arith, p, q, ap Cdev.nr_frag at_d));
    }

    Inv-loaded :
        (s' : Sce) (ls' : List Loc)
        → FreeListIn s'.cdevtbl s'.freefraglist s'.nr_freefrag s'.nr_frag ls'
        → Loading new d 0 s'.cdevtbl
        → s'.luntbl ≡ s.luntbl
        → s'.nr_cdev ≡ u32_add s.nr_cdev 1
        → Inv s' ls'
    Inv-loaded s' ls' list w luns devs =
        let k = Keeps-new v.list d c hd empty in
        Inv-Keeps s s' ls ls' v list luns
          (subst (λ n. Attached s'.cdevtbl n) (sym devs)
            (Attached-same w.tables w.handles
              (Attached-update (u32_add s.nr_cdev 1) d c hd refl (ground (arith, room)) v.devices)))
          (record {
            frag = λ l f.
                let g = k.frag l f in
                record {
                  dev = g.dev;
                  table = w.tables l.dev ∙ g.table;
                  off = omega (arith, g.off, w.sizes l.dev);
                };
            same = λ l f. w.others l (not_here v.list d c hd empty l f) ∙ k.same l f;
          })
          (λ l f low. elim (Bool-cases (l.dev == d)) [
            | inr ne ↦ back_new v.list d c hd empty l ne (record {
              dev = f.dev;
              table = sym (w.tables l.dev) ∙ f.table;
              off = omega (arith, f.off, w.sizes l.dev);
            })
            | inl e ↦
                let here : l.dev ≡ d = (==_iff l.dev d).0 e in
                let inside : l.off < (new d).nr_frag =
                  subst (λ x. l.off < (new x).nr_frag) here (omega (arith, f.off, w.sizes l.dev)) in
                let free = w.done l.off (omega arith) inside in
                let same : (frag_in s'.cdevtbl (at d l.off)).fragnum
                    ≡ (frag_in s'.cdevtbl l).fragnum =
                  ap (λ x. (frag_in s'.cdevtbl (at x l.off)).fragnum) (sym here) in
                absurd (omega (arith, low, free, same))
          ])

    loads : (s' : Sce) × (ls' : List Loc) × (put_all d n (begun n cdctx) ≡ ok tt s') × Inv s' ls'
    loads =
        let (s', ls', run, list, w, luns, devs) =
          put_all-Loading new d n (begun n cdctx) ls hd (ap Cdev.has_fragtbl at_d)
            (omega (arith, ap Cdev.nr_frag at_d)) begun-list Loading-begun in
        (s', ls', run, Inv-loaded s' ls' list w luns devs)

  none_index : (i : ℕ) → none ≡ some i → i < sce_maxcdev
  none_index i e = absurd (ground arith)

  add_at-Inv :
      (mem : Bool) (nr_sctr cdctx : ℕ)
      → nr_sctr / sce_sctrperfrag ≤ 2 ^ 24
      → s.nr_cdev < sce_maxcdev
      → (out : Option ℕ) × (s' : Sce) × (ls' : List Loc) × (add_at mem nr_sctr cdctx d s
          ≡ ok out s')
        × Inv s' ls'
        × ((i : ℕ) → out ≡ some i → i < sce_maxcdev)
  unfolding add_at add_device cdev_init cdev_destroy
  add_at-Inv mem nr_sctr cdctx small room =
      let c0 = s.cdevtbl d in
      elim (Bool-cases (ltb nr_sctr sce_sctrperfrag)) [
        | inl tiny ↦
            let init : cdev_init mem nr_sctr c0 ≡ (error, c0) = rw (cdev_init, tiny) refl in
            (
              none,
              _,
              ls,
              ap (λ x. add_device cdctx d x s) init,
              add_nothing c0 (no_frags v.list d no_cdev hd empty) (v.devices.handles d ∙ empty)
                  empty,
              none_index,
            )
        | inr big ↦
            elim mem
              as (λ mem.
                (out : Option ℕ) × (s' : Sce) × (ls' : List Loc) × (add_at mem nr_sctr cdctx d s
                  ≡ ok out s')
                × Inv s' ls'
                × ((i : ℕ) → out ≡ some i → i < sce_maxcdev)) [
                  | false ↦
                      let init : cdev_init false nr_sctr c0 ≡ (error, no_cdev) =
                        rw (cdev_init, big) refl in
                      (
                        none,
                        _,
                        ls,
                        ap (λ x. add_device cdctx d x s) init,
                        add_nothing no_cdev refl refl refl,
                        none_index,
                      )
                  | true ↦
                      let n = nr_sctr / sce_sctrperfrag % 2 ^ 32 in
                      let c1 : Cdev = record no_cdev {
                        has_scehndl = true;
                        nr_frag = n;
                        has_fragtbl = true;
                      } in
                      let init : cdev_init true nr_sctr c0 ≡ (success, c1) =
                        rw (cdev_init, big) refl in
                      let (s', ls', run, w) = loads n cdctx (omega (arith, small)) room in
                      (
                        some d,
                        s',
                        ls',
                        ap (λ x. add_device cdctx d x s) init ∙ rw (add_device, run) refl,
                        w,
                        λ i e. omega (arith, hd, some_inj e),
                      )
                ]
      ]

-- `sce_addcdev` ends and keeps the invariant, whatever it answers, for a device whose fragments have
-- numbers of 24 bits; a device that it adds gets an index
-- below SCE_MAXCDEV.
pub sce_addcdev-Inv :
    (s : Sce) (ls : List Loc) (mem : Bool) (nr_sctr cdctx : ℕ)
    → Inv s ls
    → nr_sctr / sce_sctrperfrag ≤ 2 ^ 24
    → (out : Option ℕ) × (s' : Sce) × (ls' : List Loc) × (sce_addcdev mem nr_sctr cdctx s
        ≡ ok out s')
      × Inv s' ls'
      × ((i : ℕ) → out ≡ some i → i < sce_maxcdev)
unfolding sce_addcdev
sce_addcdev-Inv s ls mem nr_sctr cdctx v small =
    elim (Bool-cases (nr_sctr == 0 || leb sce_maxcdev s.nr_cdev)) [
      | inl refused ↦ (none, s, ls, rw (refused, sce_addcdev) refl, v, λ i e. absurd (ground arith))
      | inr room ↦ elim (Option-cases (cdev_search s cdctx)) [
        | inr (j, known) ↦
            (none, s, ls, rw (room, known, sce_addcdev) refl, v, λ i e. absurd (ground arith))
        | inl fresh ↦
            elim (Option-cases (first_unused sce_maxcdev 0 (λ i. (s.cdevtbl i).has_fragtbl))) [
              | inl full ↦ (
                none,
                s,
                ls,
                rw (room, fresh, full, sce_addcdev) refl,
                v,
                λ i e. absurd (ground arith),
              )
              | inr (d, found) ↦
                  let (free, low) =
                    first_unused-free sce_maxcdev 0 d (λ i. (s.cdevtbl i).has_fragtbl) found in
                  let (out, s', ls', run, w, index) =
                    add_at-Inv s ls v d low free mem nr_sctr cdctx small (ground arith) in
                  (out, s', ls', rw (room, fresh, found, sce_addcdev) run, w, index)
            ]
      ]
    ]
