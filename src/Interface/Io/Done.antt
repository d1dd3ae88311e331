-- ===== src/Interface/Io/Done.antt =====
-- `sce_put4read`: the end of a read that was served.
use mathlib.Core.Path.{subst}
use iostash.Prelude.{
  ℕ, ◌+◌, ◌-◌, ◌*◌, ◌/◌, ◌%◌, ◌^◌, ◌≤◌, ◌<◌, ◌≡◌, false, ◌||◌, arith, refl, ◌∙◌, List, Bool-cases,
  inl, inr, ◌==◌, lt→ltb, Bool, true, ap, sym, some, update_self,
}
use iostash.Word.{sce_maxlun, sce_sctrperfrag, is_mapped, is_valid, fragnum_free}
use iostash.State.{
  Sce, Lun, Ret, success, error, ok, Loc, Frag, frag_at, set_frag, set_lun, desc_in,
}
use iostash.State.Access.{frag_in-set_self}
use iostash.Util.{pfid2frag}
use iostash.Lun.{lun_gc}
use iostash.Lun.Gc.{lun_gc-HeldAsBefore, lun_gc-ends}
use iostash.Mapping.Total.{Kept, HeldAsBefore}
use iostash.Invariant.{Inv, MapsTo}
use iostash.Invariant.Pfid.{pfid2frag-Names}
use iostash.Invariant.Frame.{Inv-write, Inv-set_lun}
use iostash.Invariant.Ages.{Ages-refl, Ages-trans, Ages-frag, Ages-lun}
use iostash.Interface.Io.{lock_lun, unread_loc, sce_put4read}
use iostash.Interface.Io.Pages.{Request, Locked, lock_lun-Locked}
use iostash.Interface.Io.Invalidate.{Kept-trans}

-- A request that was served and is still held: it passes `_lock_lun`, lies in one fragment that is
-- mapped and valid, and the fragment and the LUN serve at least one request.
pub record Held (s : Sce) (i sctrnum nr_sctr : ℕ) (l : Loc) : Type 0 where
  pub locked : lock_lun (s.luntbl i) sctrnum nr_sctr false ≡ true
  pub one :
      ((sctrnum + nr_sctr - 1) % 2 ^ 64 / sce_sctrperfrag == sctrnum / sce_sctrperfrag % 2 ^ 32)
      ≡ true
  pub mapped : is_mapped (desc_in s.luntbl i (sctrnum / sce_sctrperfrag % 2 ^ 32)) ≡ true
  pub valid : is_valid (desc_in s.luntbl i (sctrnum / sce_sctrperfrag % 2 ^ 32)) ≡ true
  pub found : pfid2frag s (desc_in s.luntbl i (sctrnum / sce_sctrperfrag % 2 ^ 32)) ≡ some l
  pub frag_held : ((frag_at s l).nr_service == 0) ≡ false
  pub lun_held : ((s.luntbl i).nr_service == 0) ≡ false

-- The answer: an error that changes nothing, for what is not held; or success, for what is, with the
-- fragment and the LUN held once less.
pub data Release (s : Sce) (i sctrnum nr_sctr : ℕ) : Ret → Sce → Type 0 where
  refused : ((l : Loc) → ¬ Held s i sctrnum nr_sctr l) → Release s i sctrnum nr_sctr error s
  released :
      (l : Loc) (s' : Sce)
      → Held s i sctrnum nr_sctr l
      → ((s.luntbl i).waiting4deletion ≡ false
          → ((s'.luntbl i).nr_service ≡ (s.luntbl i).nr_service - 1)
            × ((frag_at s' l).nr_service ≡ (frag_at s l).nr_service - 1))
      → Release s i sctrnum nr_sctr success s'

-- How the call ends: it keeps the invariant if the LUN is not waiting to be deleted.
pub record Ends (s : Sce) (i sctrnum nr_sctr : ℕ) (ret : Ret) (s' : Sce) : Type 0 where
  pub release : Release s i sctrnum nr_sctr ret s'
  pub kept : (s.luntbl i).waiting4deletion ≡ false → (ls' : List Loc) × Kept s s' ls'

unchanged :
    (s : Sce) (ls : List Loc) (i sctrnum nr_sctr : ℕ)
    → Inv s ls
    → ((l : Loc) → ¬ Held s i sctrnum nr_sctr l)
    → Ends s i sctrnum nr_sctr error s
unchanged s ls i sctrnum nr_sctr v not_held = record {
  release = refused not_held;
  kept = λ h. (ls, record { inv = v; ages = Ages-refl s });
}

clash : {b : Bool} → b ≡ true → b ≡ false → ⊥
clash t f = ground (arith, t, f)

-- the fragment and the LUN, released
abbrev let_go : (i : ℕ) → Loc → Sce → Sce
let_go i l s =
    let f = frag_at s l in
    let s1 = set_frag l (record f { nr_service = f.nr_service - 1 }) s in
    set_lun i (record (s1.luntbl i) { nr_service = (s1.luntbl i).nr_service - 1 }) s1

let_go-Kept :
    (s : Sce) (ls : List Loc) (i n : ℕ) (l : Loc)
    → Inv s ls
    → MapsTo s.cdevtbl s.luntbl i n l
    → n < fragnum_free
    → Kept s (let_go i l s) ls
let_go-Kept s ls i n l v m small =
    let f = frag_at s l in
    let g : Frag = record f { nr_service = f.nr_service - 1 } in
    let s1 = set_frag l g s in
    let low : (frag_at s l).fragnum < fragnum_free = omega (arith, m.fragnum) in
    let old = v.used l m.frag low in
    let v1 =
      Inv-write s v l g m.frag low refl refl (record { pages = old.pages; next = old.next }) in
    let u : Lun = record (s1.luntbl i) { nr_service = (s1.luntbl i).nr_service - 1 } in
    record {
      inv = Inv-set_lun s1 v1 i u (record {
        fragmap = refl;
        has_fragmap = refl;
        has_scehndl = refl;
        nr_frag = refl;
        nr_sctr = refl;
      });
      ages = Ages-trans s s1 (let_go i l s) (Ages-frag s l g (λ p h. h)) (
          Ages-lun s1 i u refl (record {
            has_fragmap = refl;
            has_scehndl = refl;
            nr_frag = refl;
            nr_sctr = refl;
            waiting4deletion = refl;
          }));
    }

-- The holds of the fragment and of the LUN.
let_go-lun :
    (s : Sce) (i : ℕ) (l : Loc) → ((let_go i l s).luntbl i).nr_service ≡ (s.luntbl i).nr_service - 1
let_go-lun s i l =
    ap (λ (u : Lun). u.nr_service)
      (update_self s.luntbl i (record (s.luntbl i) { nr_service = (s.luntbl i).nr_service - 1 }))

let_go-frag :
    (s : Sce) (i : ℕ) (l : Loc)
    → (frag_at (let_go i l s) l).nr_service ≡ (frag_at s l).nr_service - 1
let_go-frag s i l =
    ap (λ (f : Frag). f.nr_service)
      (frag_in-set_self s.cdevtbl l
        (record (frag_at s l) { nr_service = (frag_at s l).nr_service - 1 }))

same_run :
    (s1 s2 s3 : Sce) (ls3 : List Loc) (i : ℕ) (l : Loc)
    → lun_gc i l s1 ≡ ok success s2
    → lun_gc i l s1 ≡ ok success s3
    → Kept s1 s3 ls3
    → HeldAsBefore s1 s3
    → Kept s1 s2 ls3 × HeldAsBefore s1 s2
same_run s1 s2 s3 ls3 i l run run3 k3 h3 =
    let same : s3 ≡ s2 = cc in
    (subst (λ x. Kept s1 x ls3) same k3, subst (λ x. HeldAsBefore s1 x) same h3)

-- The end of a request on fragment `n`, which is at `l`.
unread_loc-Ends :
    (s : Sce) (ls : List Loc) (i n sctrnum nr_sctr : ℕ) (l : Loc)
    → Inv s ls
    → i < sce_maxlun
    → MapsTo s.cdevtbl s.luntbl i n l
    → n < fragnum_free
    → (((frag_at s l).nr_service == 0) ≡ false
        → ((s.luntbl i).nr_service == 0) ≡ false
        → Held s i sctrnum nr_sctr l)
    → ((l' : Loc) → Held s i sctrnum nr_sctr l' → l' ≡ l)
    → (ret : Ret) × (s' : Sce) × (unread_loc i l s ≡ ok ret s') × Ends s i sctrnum nr_sctr ret s'
unfolding unread_loc
unread_loc-Ends s ls i n sctrnum nr_sctr l v hi m small held only =
    elim (Bool-cases ((frag_at s l).nr_service == 0 || (s.luntbl i).nr_service == 0)) [
      | inl idle ↦ (
        error,
        s,
        rw (idle, unread_loc) refl,
        unchanged s ls i sctrnum nr_sctr v λ l' h.
            not_idle s i l idle
              (ap (λ x. (frag_at s x).nr_service == 0) (sym (only l' h)) ∙ h.frag_held) h.lun_held,
      )
      | inr busy ↦
          let s1 = let_go i l s in
          let k1 = let_go-Kept s ls i n l v m small in
          let is_held = held (or_left _ _ busy) (or_right _ _ busy) in
          elim (Bool-cases ((frag_at s l).nr_service == 1)) [
            | inr more ↦ (
              success,
              s1,
              rw (busy, more, unread_loc) refl,
              record {
                release = released l s1 is_held λ h. (let_go-lun s i l, let_go-frag s i l);
                kept = λ h. (ls, k1);
              },
            )
            | inl last ↦
                let (s2, run) = lun_gc-ends s1 ls i l k1.inv hi in
                let stays : (s.luntbl i).waiting4deletion ≡ false
                    → (ls' : List Loc) × Kept s1 s2 ls' × HeldAsBefore s1 s2 =
                  λ h.
                    let (s3, ls3, run3, k3, h3) =
                      lun_gc-HeldAsBefore s1 ls i l k1.inv hi
                        ((k1.ages.lun i).waiting4deletion ∙ h) in
                    let (k2, h2) = same_run s1 s2 s3 ls3 i l run run3 k3 h3 in (ls3, k2, h2) in
                (
                  success,
                  s2,
                  rw (busy, last, run, unread_loc) refl,
                  record {
                    release = released l s2 is_held λ h.
                        let (_, _, b) = stays h in
                        (b.luns i ∙ let_go-lun s i l, b.frags l ∙ let_go-frag s i l);
                    kept =
                        λ h. let (ls3, k3, _) = stays h in (ls3, Kept-trans s s1 s2 ls ls3 k1 k3);
                  },
                )
          ]
    ]
  where
    or_left : (a b : Bool) → (a || b) ≡ false → a ≡ false
    or_left a b h = ground (arith, h)

    or_right : (a b : Bool) → (a || b) ≡ false → b ≡ false
    or_right a b h = ground (arith, h)

    not_idle :
        (s : Sce) (i : ℕ) (l : Loc)
        → ((frag_at s l).nr_service == 0 || (s.luntbl i).nr_service == 0) ≡ true
        → ((frag_at s l).nr_service == 0) ≡ false
        → ((s.luntbl i).nr_service == 0) ≡ false
        → ⊥
    not_idle s i l idle a b = ground (arith, idle, a, b)

put_frag_lem :
    (u : Lun) (sctrnum nr_sctr : ℕ)
    → Locked u sctrnum nr_sctr
    → u.nr_sctr ≤ u.nr_frag * 2048
    → u.nr_frag ≤ fragnum_free
    → sctrnum / sce_sctrperfrag % 2 ^ 32 < u.nr_frag
put_frag_lem u sctrnum nr_sctr k a b = omega (arith, k.inside, k.some_sctrs)

-- Under the invariant `sce_put4read` of a request that does not wrap ends. It succeeds exactly if the
-- request is held: it lies in one fragment that is mapped and valid, and the fragment and the LUN
-- serve a request; an error changes nothing. If the LUN is not waiting to be deleted, success leaves the
-- fragment and the LUN held once less, and the call keeps the invariant and brings no new data into the
-- cache.
pub sce_put4read-Ends :
    (s : Sce) (ls : List Loc) (i sctrnum nr_sctr : ℕ)
    → Inv s ls
    → i < sce_maxlun
    → Request sctrnum nr_sctr
    → (ret : Ret) × (s' : Sce) × (sce_put4read i sctrnum nr_sctr s ≡ ok ret s')
      × Ends s i sctrnum nr_sctr ret s'
unfolding sce_put4read
sce_put4read-Ends s ls i sctrnum nr_sctr v hi r =
    let n = sctrnum / sce_sctrperfrag % 2 ^ 32 in
    let d = desc_in s.luntbl i n in
    let whole = (sctrnum + nr_sctr - 1) % 2 ^ 64 / sce_sctrperfrag == n in
    elim (Bool-cases (lock_lun (s.luntbl i) sctrnum nr_sctr false)) [
      | inr out ↦ (
        error,
        s,
        rw (out, sce_put4read) refl,
        unchanged s ls i sctrnum nr_sctr v λ l h. clash h.locked out,
      )
      | inl locked ↦ elim (Bool-cases whole) [
        | inr many ↦ (
          error,
          s,
          rw (locked, many, sce_put4read) refl,
          unchanged s ls i sctrnum nr_sctr v λ l h. clash h.one many,
        )
        | inl one ↦
            let k = lock_lun-Locked (s.luntbl i) sctrnum nr_sctr false r locked in
            let z = v.mapped.lengths i in
            let in_map = put_frag_lem (s.luntbl i) sctrnum nr_sctr k z.covers z.small in
            let in_map_test = lt→ltb n (s.luntbl i).nr_frag in_map in
            elim (Bool-cases (is_mapped d)) [
              | inr un ↦ (
                error,
                s,
                rw (locked, one, in_map_test, un, sce_put4read) refl,
                unchanged s ls i sctrnum nr_sctr v λ l h. clash h.mapped un,
              )
              | inl mapped ↦
                  let (l, m) = v.mapped.forward i n hi k.has_fragmap in_map mapped in
                  let found = pfid2frag-Names s d l m.names m.frag in
                  elim (Bool-cases (is_valid d)) [
                    | inr bad ↦ (
                      error,
                      s,
                      rw (locked, one, in_map_test, mapped, bad, sce_put4read) refl,
                      unchanged s ls i sctrnum nr_sctr v λ l h. clash h.valid bad,
                    )
                    | inl good ↦
                        let (ret, s', run, e) =
                          unread_loc-Ends s ls i n sctrnum nr_sctr l v hi m
                            (omega (arith, in_map, z.small))
                            (λ a b. record {
                              locked = locked;
                              one = one;
                              mapped = mapped;
                              valid = good;
                              found = found;
                              frag_held = a;
                              lun_held = b;
                            })
                            (λ l' h. let same : some l' ≡ some l = sym h.found ∙ found in cc) in
                        (
                          ret,
                          s',
                          rw (locked, one, in_map_test, mapped, good, found, sce_put4read) run,
                          e,
                        )
                  ]
            ]
      ]
    ]
