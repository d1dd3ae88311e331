-- ===== src/Pdm/Round.antt =====
-- pdm.c: one round of `_pdm_thread`. Reading the disk and writing the SSD are parameters.
use iostash.Prelude.{
  ◌≡◌, Bool, true, false, not, refl, Option, none, some, List, Bool-cases, inl, inr, if◌then◌else◌,
}
use iostash.State.{Sce, ok, Cmd, pure, ◌>>=◌, ◌>>◌, Loc}
use iostash.Invariant.{Inv}
use iostash.Interface.Task.{Poptask, sce_get_status, sce_get4pop, sce_put4pop}
use iostash.Interface.Task.Get.{Task, sce_get4pop-Task}
use iostash.Population.Choice.{InBounds}
use iostash.Pdm.{Status, Cfg, wants_population}

module _ (read_poptask write_poptask : Poptask → Bool) where
  -- What the thread does with a task; true is SCE_SUCCESS.
  unfoldable pub run_task : Status → Option Poptask → Cmd Status
  run_task now none = pure now
  run_task now (some task) =
      if read_poptask task
      then sce_put4pop task (not (write_poptask task)) >> pure now
      else pure now

  -- One round; it ends with the status that the next round compares with.
  unfoldable pub pdm_round : Cfg → (prev : Status) → Cmd Status
  pdm_round c prev s =
      let now = sce_get_status s in
      if wants_population c prev now then (do out ← sce_get4pop; run_task now out) s else ok now s

  -- How a round ends if no fragment can be read: the engine is as it was if no task is wanted, and as
  -- `sce_get4pop` left it if one is.
  pub data Unread (c : Cfg) (prev : Status) (s : Sce) : Sce → Type 0 where
    not_asked : wants_population c prev (sce_get_status s) ≡ false → Unread c prev s s
    asked :
        (out : Option Poptask) (s' : Sce)
        → wants_population c prev (sce_get_status s) ≡ true
        → sce_get4pop s ≡ ok out s'
        → Task s out s'
        → Unread c prev s s'

  run_task-unread :
      (now : Status) (out : Option Poptask) (s : Sce)
      → ((task : Poptask) → read_poptask task ≡ false)
      → run_task now out s ≡ ok now s
  unfolding run_task
  run_task-unread now none s h = refl
  run_task-unread now (some task) s h = rw (run_task, h task) refl

  -- Under the invariant, and if the log is within the LUNs' maps, a round in which reading fails ends and
  -- keeps the invariant; if no task is wanted, the engine is unchanged, and otherwise it is as
  -- `sce_get4pop` left it, with the fragment of its task mapped and held.
  pub pdm_round-Unread :
      (c : Cfg) (prev : Status) (s : Sce) (ls : List Loc)
      → Inv s ls
      → InBounds s
      → ((task : Poptask) → read_poptask task ≡ false)
      → (s' : Sce) × (ls' : List Loc) × (pdm_round c prev s ≡ ok (sce_get_status s) s')
        × Inv s' ls'
        × Unread c prev s s'
  unfolding pdm_round
  pdm_round-Unread c prev s ls v b fails =
      elim (Bool-cases (wants_population c prev (sce_get_status s))) [
        | inr idle ↦ (s, ls, rw (pdm_round, idle) refl, v, not_asked idle)
        | inl wants ↦
            let (out, s', ls', run, v', t) = sce_get4pop-Task s ls v b in
            (
              s',
              ls',
              rw (pdm_round, wants, run) (run_task-unread (sce_get_status s) out s' fails),
              v',
              asked out s' wants run t,
            )
      ]
