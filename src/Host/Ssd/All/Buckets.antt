-- ===== src/Host/Ssd/All/Buckets.antt =====
-- The buckets are emptied one after the other.
use iostash.Prelude.{
  ℕ, zero, suc, ◌+◌, ◌≤◌, ◌<◌, ◌≡◌, ◌==◌, false, refl, ap, ◌∙◌, sym, arith, some, List, [], ◌∷◌,
  update_self, update_other, Bool-cases, inl, inr, ==_iff,
}
use mathlib.Core.Path.{subst}
use iostash.State.{Loc}
use iostash.Invariant.{Inv}
use iostash.Host.{Host, iostash_maxssd_bckts}
use iostash.Host.Table.{bucket, remove, mem}
use iostash.Host.Ssd.All.{Listed, AllListed, remove_ssds, remove_buckets, ssd_unregister_all}
use iostash.Host.Ssd.All.Unload.{unload_ssd-Unloaded}

module _ (hash : ℕ → ℕ) where
  -- What the walk over one bucket leaves.
  record Emptied (i : ℕ) (w w' : Host) : Type 0 where
    engine : (ls' : List Loc) × Inv w'.sce ls'
    empty : w'.ssdtbl i ≡ []
    buckets : (j : ℕ) → (j == i) ≡ false → w'.ssdtbl j ≡ w.ssdtbl j
    others : (j q : ℕ) → (j == i) ≡ false → Listed hash j (w.ssds q) → w'.ssds q ≡ w.ssds q

  -- Two devices of different buckets are two devices.
  apart :
      (i j p q : ℕ) (w : Host)
      → (j == i) ≡ false
      → Listed hash i (w.ssds p)
      → Listed hash j (w.ssds q)
      → (q == p) ≡ false
  apart i j p q w ne hp hq = elim (Bool-cases (q == p)) [
    | inr other ↦ other
    | inl e ↦
        let same : j ≡ i =
          sym hq.place
          ∙ ap (λ x. bucket hash iostash_maxssd_bckts (w.ssds x).dev_t) ((==_iff q p).0 e)
          ∙ hp.place in
        ground (arith, same)
  ]

  -- The rest of the bucket is still listed.
  AllListed-kept :
      (p i : ℕ) (w w1 : Host) (ps : List ℕ)
      → mem p ps ≡ false
      → ((q : ℕ) → (q == p) ≡ false → w1.ssds q ≡ w.ssds q)
      → AllListed hash w i ps
      → AllListed hash w1 i ps
  AllListed-kept p i w w1 [] out same h = tt
  AllListed-kept p i w w1 (q ∷ ps) out same h = (
    subst (Listed hash i) (sym (same q (ground arith))) h.0,
    h.1,
    AllListed-kept p i w w1 ps (ground arith) same h.2,
  )

  remove_first : (p : ℕ) (ps : List ℕ) → remove p (p ∷ ps) ≡ ps
  remove_first p ps = rw ((==_iff p p).1 refl) refl

  remove_ssds-Emptied :
      (ps : List ℕ) (i : ℕ) (w : Host) (ls : List Loc)
      → Inv w.sce ls
      → w.ssdtbl i ≡ ps
      → AllListed hash w i ps
      → (w' : Host) × (remove_ssds hash ps w ≡ some w') × Emptied i w w'
  unfolding remove_ssds
  remove_ssds-Emptied [] i w ls v e h = (
    w,
    refl,
    record { engine = (ls, v); empty = e; buckets = λ j ne. refl; others = λ j q ne l. refl },
  )
  remove_ssds-Emptied (p ∷ ps) i w ls v e h =
      let (w1, run, u) = unload_ssd-Unloaded hash p i w ls v h.0 in
      let tail : w1.ssdtbl i ≡ ps =
        ap (λ t. t i) u.table
        ∙ update_self w.ssdtbl i (remove p (w.ssdtbl i))
        ∙ ap (remove p) e
        ∙ remove_first p ps in
      let (ls1, v1) = u.engine in
      let (w2, run2, m) =
        remove_ssds-Emptied ps i w1 ls1 v1 tail (AllListed-kept p i w w1 ps h.1 u.others h.2) in
      (
        w2,
        rw (remove_ssds, run) run2,
        record {
          engine = m.engine;
          empty = m.empty;
          buckets = λ j ne.
              m.buckets j ne
              ∙ ap (λ t. t j) u.table
              ∙ update_other w.ssdtbl i j (remove p (w.ssdtbl i)) ne;
          others = λ j q ne l.
              let same = u.others q (apart i j p q w ne h.0 l) in
              m.others j q ne (subst (Listed hash j) (sym same) l) ∙ same;
        },
      )

  -- The devices of another bucket are still listed.
  AllListed-other :
      (i j : ℕ) (w w1 : Host) (ps : List ℕ)
      → ((q : ℕ) → Listed hash j (w.ssds q) → w1.ssds q ≡ w.ssds q)
      → AllListed hash w j ps
      → AllListed hash w1 j ps
  AllListed-other i j w w1 [] same h = tt
  AllListed-other i j w w1 (q ∷ ps) same h =
      (subst (Listed hash j) (sym (same q h.0)) h.0, h.1, AllListed-other i j w w1 ps same h.2)

  remove_buckets_lem :
      (k i : ℕ) (w : Host) (ls : List Loc)
      → Inv w.sce ls
      → ((j : ℕ) → i ≤ j → j < i + k → AllListed hash w j (w.ssdtbl j))
      → (w' : Host) × (ls' : List Loc) × (remove_buckets hash k i w ≡ some w')
        × Inv w'.sce ls'
        × ((j : ℕ) → i ≤ j → j < i + k → w'.ssdtbl j ≡ [])
        × ((j : ℕ) → j < i → w'.ssdtbl j ≡ w.ssdtbl j)
  unfolding remove_buckets
  remove_buckets_lem zero i w ls v h = (w, ls, refl, v, λ j a b. absurd (omega arith), λ j a. refl)
  remove_buckets_lem (suc k) i w ls v h =
      let (w1, run, m) =
        remove_ssds-Emptied (w.ssdtbl i) i w ls v refl (h i (omega arith) (omega arith)) in
      let (ls1, v1) = m.engine in
      let (w2, ls2, run2, v2, empty, before) = remove_buckets_lem k (suc i) w1 ls1 v1 (λ j a b.
        let ne : (j == i) ≡ false = ground arith in
        subst (AllListed hash w1 j) (sym (m.buckets j ne)) (
          AllListed-other i j w w1 (w.ssdtbl j) (λ q. m.others j q ne)
            (h j (omega arith) (omega arith)))) in
      (
        w2,
        ls2,
        rw (remove_buckets, run) run2,
        v2,
        λ j a b. elim (Bool-cases (j == i)) [
          | inl e ↦
              subst (λ x. w2.ssdtbl x ≡ []) (sym ((==_iff j i).0 e))
                (before i (omega arith) ∙ m.empty)
          | inr ne ↦ empty j (ground arith) (omega arith)
        ],
        λ j a. before j (omega arith) ∙ m.buckets j (ground arith),
      )

  -- If every device of the table is online, in the bucket of its number and there once, with an index
  -- that the engine gives and no reference held, and the engine is in the invariant:
  -- `ssd_unregister_all` ends, leaves every bucket empty, and the engine in the invariant.
  pub ssd_unregister_all-Inv :
      (w : Host) (ls : List Loc)
      → Inv w.sce ls
      → ((j : ℕ) → j < iostash_maxssd_bckts → AllListed hash w j (w.ssdtbl j))
      → (w' : Host) × (ls' : List Loc) × (ssd_unregister_all hash w ≡ some w')
        × Inv w'.sce ls'
        × ((j : ℕ) → j < iostash_maxssd_bckts → w'.ssdtbl j ≡ [])
  unfolding ssd_unregister_all
  ssd_unregister_all-Inv w ls v h =
      let (w', ls', run, v', empty, _) =
        remove_buckets_lem iostash_maxssd_bckts 0 w ls v (λ j a b. h j (omega arith)) in
      (w', ls', run, v', λ j a. empty j (omega arith) (omega arith))
