-- ===== src/Interface/Task/Get.antt =====
-- `sce_get4pop`: the choice of a miss and the allocation of a fragment for it.
use mathlib.Core.Path.{subst₂}
use iostash.Prelude.{
  ℕ, ◌<◌, ◌≡◌, refl, List, [], ap, ◌∙◌, sym, Bool-cases, inl, inr, Option, some, none, ltb, ltb→lt,
}
use iostash.Word.{sce_maxlun, sce_misswindow, pfid_dev, pfid_off}
use iostash.State.{Sce, success, error, ok, Loc}
use iostash.Mapping.{in_lun}
use iostash.Lun.Index.{lun_isvalididx}
use iostash.Population.{alloc4population, choose4population}
use iostash.Population.Alloc.{Allocated, Outcome, allocated, exhausted, alloc4population-Outcome}
use iostash.Population.Choice.{
  Entry, Entry-cases, InBounds, Candidate, Choice, choose4population-Choice,
}
use iostash.Invariant.{Inv}
use iostash.Interface.Task.{Poptask, sce_get4pop}

-- A task is for the hottest miss, whose place is now mapped to the fragment that the task names; or
-- there is none.
pub data Task (s : Sce) : Option Poptask → Sce → Type 0 where
  task :
      (j lun fragnum pf : ℕ) (s' : Sce)
      → Candidate s 0 sce_misswindow j lun fragnum
      → Choice s 0 sce_misswindow none (some (lun, fragnum))
      → Allocated s lun fragnum pf s'
      → Task s
          (some (record {
            lunctx = (s'.luntbl lun).lunctx;
            cdevctx = (s'.cdevtbl (pfid_dev pf)).cdevctx;
            lun_fragnum = fragnum;
            cdev_fragnum = pfid_off pf;
          }))
          s'
  no_task : (s' : Sce) → Task s none s'

Entry-valid : (s : Sce) (j lun fragnum : ℕ) → Entry s j lun fragnum → lun_isvalididx s lun ≡ success
Entry-valid s j lun fragnum e = elim (Entry-cases s j) [
  | inl bad ↦ let same : error ≡ success = sym bad ∙ ap (λ p. p.0) e in absurd cc
  | inr (lun', fragnum', e', good) ↦ let same : lun' ≡ lun = cc in cc
]

lun_small : (s : Sce) (lun : ℕ) → lun_isvalididx s lun ≡ success → lun < sce_maxlun
lun_small s lun h = elim (Bool-cases (ltb lun sce_maxlun)) [
  | inl e ↦ ltb→lt lun sce_maxlun e
  | inr ne ↦
      let bad : lun_isvalididx s lun ≡ error = rw ne refl in
      let same : error ≡ success = sym bad ∙ h in absurd cc
]

module _ (s : Sce) (ls : List Loc) (v : Inv s ls) (j lun fragnum : ℕ)
    (c : Candidate s 0 sce_misswindow j lun fragnum)
    (best : Choice s 0 sce_misswindow none (some (lun, fragnum)))
    (chosen : choose4population s ≡ ok (some (lun, fragnum)) s) where
  get_allocated :
      (got : Option ℕ) (s' : Sce)
      → alloc4population lun fragnum s ≡ ok got s'
      → Outcome s lun fragnum got s'
      → (out : Option Poptask) × (s' : Sce) × (ls' : List Loc) × (sce_get4pop s ≡ ok out s')
        × Inv s' ls'
        × Task s out s'
  unfolding sce_get4pop
  get_allocated _ _ run (allocated pf s' ls' v' a) =
      (_, s', ls', rw (chosen, run, sce_get4pop) refl, v', task j lun fragnum pf s' c best a)
  get_allocated _ _ run (exhausted s' v') =
      (none, s', [], rw (chosen, run, sce_get4pop), v', no_task s')

  -- The place is in its LUN, unless the LUN is not attached to the engine.
  get_chosen :
      (out : Option Poptask) × (s' : Sce) × (ls' : List Loc) × (sce_get4pop s ≡ ok out s')
      × Inv s' ls'
      × Task s out s'
  unfolding sce_get4pop alloc4population
  get_chosen = elim (Bool-cases (in_lun (s.luntbl lun) fragnum)) [
    | inl inside ↦
        let valid = Entry-valid s j lun fragnum c.entry in
        let (got, s', run, o) =
          alloc4population-Outcome s ls lun fragnum v (lun_small s lun valid) inside c.unmapped in
        get_allocated got s' run o
    | inr outside ↦
        let run : alloc4population lun fragnum s ≡ ok none s = rw (outside, alloc4population) in
        (none, s, ls, rw (chosen, run, sce_get4pop), v, no_task s)
  ]

-- Under the invariant, and if the log is within the LUNs' maps, `sce_get4pop` ends and keeps the
-- invariant. The task it gives, if it gives one, is for the hottest miss of the window, whose place is
-- now mapped to the fragment that the task names; the fragment is held by one service, and the LUN by
-- one more than before.
pub sce_get4pop-Task :
    (s : Sce) (ls : List Loc)
    → Inv s ls
    → InBounds s
    → (out : Option Poptask) × (s' : Sce) × (ls' : List Loc) × (sce_get4pop s ≡ ok out s')
      × Inv s' ls'
      × Task s out s'
unfolding sce_get4pop
sce_get4pop-Task s ls v b = let (out, run, c) = choose4population-Choice s b in by_choice out run c
  where
    by_choice :
        (out : Option (ℕ × ℕ))
        → choose4population s ≡ ok out s
        → Choice s 0 sce_misswindow none out
        → (task : Option Poptask) × (s' : Sce) × (ls' : List Loc) × (sce_get4pop s ≡ ok task s')
          × Inv s' ls'
          × Task s task s'
    by_choice none run c = (none, s, ls, rw (run, sce_get4pop), v, no_task s)
    by_choice (some (lun, fragnum)) run c = elim c.member [
      | inl bad ↦ absurd cc
      | inr (j, l, n, e, pos, d) ↦
          let lun_same : l ≡ lun = cc in
          let frag_same : n ≡ fragnum = cc in
          let d' = subst₂ (λ a b. Candidate s 0 sce_misswindow j a b) lun_same frag_same d in
          get_chosen s ls v j lun fragnum d' c run
    ]
