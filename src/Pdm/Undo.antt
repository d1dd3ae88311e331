-- ===== src/Pdm/Undo.antt =====
-- pdm.c: a round of `_pdm_thread` whose write to the SSD fails is undone.
use mathlib.Core.Path.{fun_ext}
use iostash.Prelude.{
  ℕ, ◌%◌, ◌^◌, ◌<◌, ◌≡◌, Bool, true, false, refl, ap, ◌∙◌, sym, arith, some, none, List, ◌∷◌,
  update, Bool-cases, inl, inr, Option,
}
use iostash.Word.{sce_maxlun, sce_misswindow, is_mapped, pfid_dev, pfid_off, u32_sub}
use iostash.State.{Sce, Lun, success, ok, Loc, desc_in, set_desc_in}
use iostash.Invariant.{Inv}
use iostash.Mapping.{in_lun}
use iostash.Lun.Index.{lun_search, search_from}
use iostash.Population.{cancel_population}
use iostash.Population.Alloc.{Allocated, like}
use iostash.Population.Choice.{InBounds, Candidate}
use iostash.Population.Finish.{cancel_population-cancelled, cancelled}
use iostash.Interface.Task.{Poptask, sce_get_status, sce_get4pop, sce_put4pop}
use iostash.Interface.Task.Get.{Task, task, no_task, sce_get4pop-Task}
use iostash.Pdm.{Status, Cfg, wants_population}
use iostash.Pdm.Round.{pdm_round, run_task}

-- Each attached LUN is the one that is found by its context, and none waits for its deletion.
pub record Steady (s : Sce) : Type 0 where
  pub by_ctx :
      (i n : ℕ)
      → i < sce_maxlun
      → in_lun (s.luntbl i) n ≡ true
      → lun_search s (s.luntbl i).lunctx ≡ some i
  pub stays : (i : ℕ) → (s.luntbl i).waiting4deletion ≡ false

-- How a round ends if no fragment can be written: the engine is as it was if no task is wanted, and as
-- `sce_get4pop` left it if that gives none. If it gives a task, the task's place is a candidate of the
-- window and is not mapped at the end, and its LUN is held as often as before.
pub data Undone (c : Cfg) (prev : Status) (s : Sce) : Sce → Type 0 where
  not_asked : wants_population c prev (sce_get_status s) ≡ false → Undone c prev s s
  no_choice :
      (s' : Sce)
      → wants_population c prev (sce_get_status s) ≡ true
      → sce_get4pop s ≡ ok none s'
      → Undone c prev s s'
  undone :
      (j lun : ℕ) (t : Poptask) (s1 s' : Sce)
      → wants_population c prev (sce_get_status s) ≡ true
      → sce_get4pop s ≡ ok (some t) s1
      → lun_search s t.lunctx ≡ some lun
      → Candidate s 0 sce_misswindow j lun t.lun_fragnum
      → is_mapped (desc_in s'.luntbl lun t.lun_fragnum) ≡ false
      → (s'.luntbl lun).nr_service ≡ (s.luntbl lun).nr_service % 2 ^ 32
      → Undone c prev s s'

search_kept :
    (s s1 : Sce) (ctx : ℕ)
    → ((j : ℕ) → s1.luntbl j ≡ like (s.luntbl j) (s1.luntbl j))
    → lun_search s1 ctx ≡ lun_search s ctx
unfolding lun_search
search_kept s s1 ctx h =
    ap (λ f. search_from sce_maxlun 0 f ctx) (fun_ext λ i. ap (λ x. x.lunctx) (h i))

put4pop_failed :
    (t : Poptask) (lun : ℕ) (s s' : Sce)
    → lun_search s t.lunctx ≡ some lun
    → cancel_population lun t.lun_fragnum s ≡ ok success s'
    → sce_put4pop t true s ≡ ok success s'
unfolding sce_put4pop
put4pop_failed t lun s s' found run = rw (sce_put4pop, found) run

-- The task that `sce_get4pop` gives for a place and a fragment.
abbrev task_of : Sce → (lun fragnum pf : ℕ) → Poptask
task_of s lun fragnum pf = record {
  lunctx = (s.luntbl lun).lunctx;
  cdevctx = (s.cdevtbl (pfid_dev pf)).cdevctx;
  lun_fragnum = fragnum;
  cdev_fragnum = pfid_off pf;
}

service_dropped :
    (u : ℕ → Lun) (i n d : ℕ)
    → (let w = set_desc_in u i n d in
        (update w i (record (w i) { nr_service = u32_sub (w i).nr_service 1 }) i).nr_service)
      ≡ u32_sub (u i).nr_service 1
service_dropped u i n d = ground arith

-- A task that was given is cancelled.
cancel_task :
    (s s1 : Sce) (ls : List Loc) (lun fragnum pf : ℕ)
    → Steady s
    → Inv s1 ls
    → (a : Allocated s lun fragnum pf s1)
    → (let s' = cancelled lun fragnum a.loc s1 in
        (lun_search s (task_of s1 lun fragnum pf).lunctx ≡ some lun)
        × (sce_put4pop (task_of s1 lun fragnum pf) true s1 ≡ ok success s')
        × Inv s' (a.loc ∷ ls)
        × (is_mapped (desc_in s'.luntbl lun fragnum) ≡ false)
        × ((s'.luntbl lun).nr_service ≡ (s.luntbl lun).nr_service % 2 ^ 32))
cancel_task s s1 ls lun fragnum pf h v a =
    let same = a.luns lun in
    let inside : in_lun (s.luntbl lun) fragnum ≡ true =
      sym (ap (λ u. in_lun u fragnum) same) ∙ a.inside in
    let ctx = ap (λ x. x.lunctx) same in
    let known : lun_search s (s1.luntbl lun).lunctx ≡ some lun =
      ap (lun_search s) ctx ∙ h.by_ctx lun fragnum a.index inside in
    let found = search_kept s s1 (s1.luntbl lun).lunctx a.luns ∙ known in
    let (run, inv, clear) =
      cancel_population-cancelled v lun fragnum a.loc a.inside a.mapped a.maps a.pending a.held
        (ap (λ x. x.waiting4deletion) same ∙ h.stays lun) in
    (
      known,
      put4pop_failed _ lun s1 _ found run,
      inv,
      clear,
      service_dropped s1.luntbl lun fragnum _ ∙ omega (arith, a.lun_held),
    )

module _ (read_poptask write_poptask : Poptask → Bool) where
  run_task-failed :
      (now : Status) (t : Poptask) (s s' : Sce)
      → read_poptask t ≡ true
      → write_poptask t ≡ false
      → sce_put4pop t true s ≡ ok success s'
      → run_task read_poptask write_poptask now (some t) s ≡ ok now s'
  unfolding run_task
  run_task-failed now t s s' r w run = rw (run_task, r, w, run) refl

  round_end :
      (c : Cfg) (prev : Status) (s : Sce) (out : Option Poptask) (s1 : Sce) (ls1 : List Loc)
      → Steady s
      → ((t : Poptask) → read_poptask t ≡ true)
      → ((t : Poptask) → write_poptask t ≡ false)
      → wants_population c prev (sce_get_status s) ≡ true
      → sce_get4pop s ≡ ok out s1
      → Inv s1 ls1
      → Task s out s1
      → (s' : Sce) × (ls' : List Loc) × (run_task read_poptask write_poptask
            (sce_get_status s)
            out
            s1
          ≡ ok (sce_get_status s) s')
        × Inv s' ls'
        × Undone c prev s s'
  unfolding run_task
  round_end c prev s _ _ ls1 h reads fails wants got v1 (task j lun fragnum pf s1 cand best a) =
      let t = task_of s1 lun fragnum pf in
      let s' = cancelled lun fragnum a.loc s1 in
      let (known, run, inv, clear, service) = cancel_task s s1 ls1 lun fragnum pf h v1 a in
      (
        s',
        a.loc ∷ ls1,
        run_task-failed (sce_get_status s) t s1 s' (reads t) (fails t) run,
        inv,
        undone j lun t s1 s' wants got known cand clear service,
      )
  round_end c prev s _ _ ls1 h reads fails wants got v1 (no_task s1) =
      (s1, ls1, refl, v1, no_choice s1 wants got)

  -- Under the invariant, with the log within the LUNs' maps, LUNs that are found by their contexts and
  -- none that waits for its deletion, a round whose reads succeed and whose writes fail ends and keeps
  -- the invariant. If no task is wanted, the engine is unchanged; if `sce_get4pop` gives none, it is as
  -- that left it; if it gives one, the task's place is not mapped at the end, and the place's LUN is held
  -- as often as before.
  pub pdm_round-Undone :
      (c : Cfg) (prev : Status) (s : Sce) (ls : List Loc)
      → Inv s ls
      → InBounds s
      → Steady s
      → ((t : Poptask) → read_poptask t ≡ true)
      → ((t : Poptask) → write_poptask t ≡ false)
      → (s' : Sce) × (ls' : List Loc) × (pdm_round read_poptask write_poptask c prev s
          ≡ ok (sce_get_status s) s')
        × Inv s' ls'
        × Undone c prev s s'
  unfolding pdm_round
  pdm_round-Undone c prev s ls v b h reads fails =
      elim (Bool-cases (wants_population c prev (sce_get_status s))) [
        | inr idle ↦ (s, ls, rw (pdm_round, idle) refl, v, not_asked idle)
        | inl wants ↦
            let (out, s1, ls1, run, v1, t) = sce_get4pop-Task s ls v b in
            let (s', ls', ends, v', u) =
              round_end c prev s out s1 ls1 h reads fails wants run v1 t in
            (s', ls', rw (pdm_round, wants, run) ends, v', u)
      ]
