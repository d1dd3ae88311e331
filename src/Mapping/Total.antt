-- ===== src/Mapping/Total.antt =====
-- `_unmap_frag` of any place ends, keeps the invariant, and brings no new data into the cache.
use mathlib.Core.Path.{subst}
use iostash.Prelude.{
  ℕ, ◌<◌, ◌≡◌, true, false, arith, refl, ap, List, ◌∷◌, Bool-cases, inl, inr, ◌==◌, update,
  update_all,
}
use iostash.Word.{sce_maxlun, is_mapped, fragdesc_data}
use iostash.State.{
  Sce, Ret, success, error, ok, Loc, frag_at, set_frag, frag_in, set_in, desc_in, loc_eq,
}
use iostash.State.Access.{frag_in-set_self, frag_in-set_other, eq_of_loc_eq}
use iostash.FreeList.Stack.{linked}
use iostash.Mapping.{in_lun, unmap_frag}
use iostash.Mapping.Laws.{
  unmap_state, unmap_frag-release, unmap_frag-busy, unmap_frag-error, in_lun_lt,
}
use iostash.Invariant.{Inv}
use iostash.Invariant.Ages.{Ages, Ages-refl, Ages-trans, Ages-frag, Ages-desc}

-- What any command of the engine keeps.
pub record Kept (s s' : Sce) (ls : List Loc) : Type 0 where
  pub inv : Inv s' ls
  pub ages : Ages s s'

data_unmapped : (n : ℕ) → is_mapped (fragdesc_data n) ≡ false
data_unmapped n = ground arith

Ages-unmap_state : (s : Sce) (i n : ℕ) (l : Loc) → Ages s (unmap_state i n l s)
Ages-unmap_state s i n l =
    let s1 = set_frag l (linked (frag_at s l) s.freefraglist) s in
    let a1 = Ages-frag s l (linked (frag_at s l) s.freefraglist) (λ p h. h) in
    let a2 =
      Ages-desc s1 i n (fragdesc_data (frag_at s l).nr_miss)
        (data_unmapped (frag_at s l).nr_miss) in
    let a = Ages-trans s s1 _ a1 a2 in
    record { lun = a.lun; desc = a.desc; frags = a.frags; pages = a.pages }

in_lun_map : (s : Sce) (i n : ℕ) → in_lun (s.luntbl i) n ≡ true → (s.luntbl i).has_fragmap ≡ true
in_lun_map s i n h = ground (arith, h)

-- The holds on the LUNs and on the fragments are as they were.
pub record HeldAsBefore (s s' : Sce) : Type 0 where
  pub luns : (j : ℕ) → (s'.luntbl j).nr_service ≡ (s.luntbl j).nr_service
  pub frags : (k : Loc) → (frag_at s' k).nr_service ≡ (frag_at s k).nr_service

pub HeldAsBefore-refl : (s : Sce) → HeldAsBefore s s
HeldAsBefore-refl s = record { luns = λ j. refl; frags = λ k. refl }

HeldAsBefore-unmap_state : (s : Sce) (i n : ℕ) (l : Loc) → HeldAsBefore s (unmap_state i n l s)
HeldAsBefore-unmap_state s i n l =
    let g = linked (frag_at s l) s.freefraglist in
    record {
      luns =
          update_all (λ j x. x.nr_service ≡ (s.luntbl j).nr_service) s.luntbl i
            (record (s.luntbl i) {
              fragmap = update (s.luntbl i).fragmap n (fragdesc_data (frag_at s l).nr_miss);
            })
            refl (λ j. refl);
      frags = λ k. elim (Bool-cases (loc_eq l k)) [
        | inl same ↦
            let e = eq_of_loc_eq l k same in
            subst (λ x. (frag_in (set_in s.cdevtbl l g) x).nr_service ≡ (frag_at s x).nr_service) e
              (ap (λ f. f.nr_service) (frag_in-set_self s.cdevtbl l g))
        | inr other ↦ ap (λ f. f.nr_service) (frag_in-set_other s.cdevtbl l k g other)
      ];
    }

pub unmap_frag-HeldAsBefore :
    (s : Sce) (ls : List Loc) (i n : ℕ)
    → Inv s ls
    → i < sce_maxlun
    → (ret : Ret) × (s' : Sce) × (ls' : List Loc) × (unmap_frag i n s ≡ ok ret s')
      × Kept s s' ls'
      × HeldAsBefore s s'
unmap_frag-HeldAsBefore s ls i n v hi = elim (Bool-cases (in_lun (s.luntbl i) n)) [
  | inr outside ↦ (
    error,
    s,
    ls,
    unmap_frag-error s i n (rw outside refl),
    record { inv = v; ages = Ages-refl s },
    HeldAsBefore-refl s,
  )
  | inl inside ↦ elim (Bool-cases (is_mapped (desc_in s.luntbl i n))) [
    | inr un ↦ (
      error,
      s,
      ls,
      unmap_frag-error s i n (rw (inside, un) refl),
      record { inv = v; ages = Ages-refl s },
      HeldAsBefore-refl s,
    )
    | inl mapped ↦
        let (l, m) =
          v.mapped.forward i n hi (in_lun_map s i n inside) (in_lun_lt (s.luntbl i) n inside)
            mapped in
        elim (Bool-cases ((frag_at s l).nr_service == 0)) [
          | inl idle ↦
              let (run, inv) = unmap_frag-release v i n l inside mapped m (ground (arith, idle)) in
              (
                success,
                unmap_state i n l s,
                l ∷ ls,
                run,
                record { inv = inv; ages = Ages-unmap_state s i n l },
                HeldAsBefore-unmap_state s i n l,
              )
          | inr busy ↦ (
            error,
            s,
            ls,
            unmap_frag-busy v i n l inside mapped m (ground (arith, busy)),
            record { inv = v; ages = Ages-refl s },
            HeldAsBefore-refl s,
          )
        ]
  ]
]

pub unmap_frag-Kept :
    (s : Sce) (ls : List Loc) (i n : ℕ)
    → Inv s ls
    → i < sce_maxlun
    → (ret : Ret) × (s' : Sce) × (ls' : List Loc) × (unmap_frag i n s ≡ ok ret s') × Kept s s' ls'
unmap_frag-Kept s ls i n v hi =
    let (ret, s', ls', run, k, _) = unmap_frag-HeldAsBefore s ls i n v hi in (ret, s', ls', run, k)
