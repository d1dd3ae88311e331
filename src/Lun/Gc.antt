-- ===== src/Lun/Gc.antt =====
-- `_lun_gc` and `_lun_purge`.
use iostash.Prelude.{
  ℕ, zero, suc, not, ◌<◌, ◌≡◌, false, ◌&&◌, refl, ◌∙◌, List, Bool-cases, inl, inr, ◌==◌,
}
use iostash.Word.{sce_maxlun, u32_sub}
use iostash.State.{Sce, Ret, success, error, ok, Loc, frag_at, set_lun}
use iostash.Mapping.Total.{
  Kept, unmap_frag-Kept, HeldAsBefore, HeldAsBefore-refl, unmap_frag-HeldAsBefore,
}
use iostash.Invariant.{Inv}
use iostash.Invariant.Ages.{Ages-refl, Ages-trans}
use iostash.Lun.{lun_destroy, lun_gc, lun_purge, purge_loop}

-- `_lun_gc` of a LUN that does not wait for its deletion succeeds, keeps the invariant and all holds,
-- and brings no new data into the cache.
pub lun_gc-HeldAsBefore :
    (s : Sce) (ls : List Loc) (i : ℕ) (l : Loc)
    → Inv s ls
    → i < sce_maxlun
    → (s.luntbl i).waiting4deletion ≡ false
    → (s' : Sce) × (ls' : List Loc) × (lun_gc i l s ≡ ok success s')
      × Kept s s' ls'
      × HeldAsBefore s s'
unfolding lun_gc
lun_gc-HeldAsBefore s ls i l v hi stays =
    elim (Bool-cases ((frag_at s l).nr_service == 0 && (frag_at s l).nr_valid == 0)) [
      | inl e ↦
          let (ret, s', ls', run, k, held) =
            unmap_frag-HeldAsBefore s ls i (frag_at s l).fragnum v hi in
          let later : (s'.luntbl i).waiting4deletion ≡ false =
            (k.ages.lun i).waiting4deletion ∙ stays in
          (s', ls', rw (e, run, later, lun_gc), k, held)
      | inr ne ↦ (
        s,
        ls,
        rw (ne, stays, lun_gc),
        record { inv = v; ages = Ages-refl s },
        HeldAsBefore-refl s,
      )
    ]

pub lun_gc-Kept :
    (s : Sce) (ls : List Loc) (i : ℕ) (l : Loc)
    → Inv s ls
    → i < sce_maxlun
    → (s.luntbl i).waiting4deletion ≡ false
    → (s' : Sce) × (ls' : List Loc) × (lun_gc i l s ≡ ok success s') × Kept s s' ls'
lun_gc-Kept s ls i l v hi stays =
    let (s', ls', run, k, _) = lun_gc-HeldAsBefore s ls i l v hi stays in (s', ls', run, k)

-- The loop of `_lun_purge` ends and keeps the invariant.
pub purge_loop-Kept :
    (k n i : ℕ) (s : Sce) (ls : List Loc)
    → Inv s ls
    → i < sce_maxlun
    → (s' : Sce) × (ls' : List Loc) × (purge_loop k n i s ≡ ok tt s') × Kept s s' ls'
unfolding purge_loop
purge_loop-Kept zero n i s ls v hi = (s, ls, refl, record { inv = v; ages = Ages-refl s })
purge_loop-Kept (suc k) n i s ls v hi =
    let (ret, s1, ls1, run1, k1) = unmap_frag-Kept s ls i n v hi in
    let (s2, ls2, run2, k2) = purge_loop-Kept k (suc n) i s1 ls1 k1.inv hi in
    (
      s2,
      ls2,
      rw (run1, purge_loop) run2,
      record { inv = k2.inv; ages = Ages-trans s s1 s2 k1.ages k2.ages },
    )

-- the state that `_lun_purge` leaves once its loop is over
abbrev pub purged : ℕ → Sce → Sce
purged i s =
    let t = set_lun i (lun_destroy (s.luntbl i)) s in record t { nr_lun = u32_sub t.nr_lun 1 }

lun_purge-ends :
    (i : ℕ) (s : Sce) (ls : List Loc)
    → Inv s ls
    → i < sce_maxlun
    → (ret : Ret) × (s' : Sce) × (lun_purge i s ≡ ok ret s')
unfolding lun_purge
lun_purge-ends i s ls v hi =
    elim (Bool-cases
      ((s.luntbl i).nr_service == 0 && ((s.luntbl i).has_scehndl && not (s.nr_lun == 0)))) [
        | inl e ↦
            let (s1, ls1, run, k) = purge_loop-Kept (s.luntbl i).nr_frag 0 i s ls v hi in
            (success, purged i s1, rw (e, run, lun_purge) refl)
        | inr ne ↦ (error, s, rw (ne, lun_purge) refl)
      ]

-- `_lun_gc` always succeeds under the invariant.
pub lun_gc-ends :
    (s : Sce) (ls : List Loc) (i : ℕ) (l : Loc)
    → Inv s ls
    → i < sce_maxlun
    → (s' : Sce) × (lun_gc i l s ≡ ok success s')
unfolding lun_gc
lun_gc-ends s ls i l v hi =
    elim (Bool-cases ((frag_at s l).nr_service == 0 && (frag_at s l).nr_valid == 0)) [
      | inl e ↦
          let (ret, s1, ls1, run, k) = unmap_frag-Kept s ls i (frag_at s l).fragnum v hi in
          elim (Bool-cases ((s1.luntbl i).waiting4deletion && (s1.luntbl i).nr_service == 0)) [
            | inl p ↦
                let (ret2, s2, run2) = lun_purge-ends i s1 ls1 k.inv hi in
                (s2, rw (e, run, p, run2, lun_gc) refl)
            | inr np ↦ (s1, rw (e, run, np, lun_gc) refl)
          ]
      | inr ne ↦ elim (Bool-cases ((s.luntbl i).waiting4deletion && (s.luntbl i).nr_service == 0)) [
        | inl p ↦
            let (ret2, s2, run2) = lun_purge-ends i s ls v hi in (s2, rw (ne, p, run2, lun_gc) refl)
        | inr np ↦ (s, rw (ne, np, lun_gc) refl)
      ]
    ]
