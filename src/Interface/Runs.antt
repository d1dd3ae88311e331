-- ===== src/Interface/Runs.antt =====
-- The engine from `sce_create` on, under any sequence of the calls that set it up, read and write.
use iostash.Prelude.{
  ℕ, ◌*◌, ◌/◌, ◌^◌, ◌≤◌, ◌<◌, ◌≡◌, Bool, true, false, refl, some, List, [], ◌∷◌, Bool-cases, inl,
  inr,
}
use iostash.Word.{sce_maxcdev, sce_maxlun, sce_sctrperfrag, fragnum_free}
use iostash.State.{Sce, error, ok, Cmd, pure, ◌>>◌, Loc}
use iostash.Invariant.{Inv}
use iostash.Interface.Config.{sce_create, sce_addcdev, sce_rmcdev, sce_addlun}
use iostash.Interface.Config.Luns.{sce_create-Inv, sce_addlun-Inv}
use iostash.Interface.Config.Removed.{sce_rmcdev-Inv}
use iostash.Interface.Config.Added.{sce_addcdev-Inv}
use iostash.Interface.Io.{sce_get4read, sce_invalidate, lock_lun}
use iostash.Interface.Io.Pages.{Request}
use iostash.Interface.Io.Read.{sce_get4read-ReadEnd}
use iostash.Interface.Io.Write.{sce_invalidate-Dirty}

-- A call of the engine.
pub data Call : Type 0 where
  addcdev : (mem : Bool) (nr_sctr cdctx : ℕ) → Call
  rmcdev : (devnum : ℕ) → Call
  addlun : (mem : Bool) (nr_sctr lunctx : ℕ) → Call
  get4read : (lun sctrnum nr_sctr : ℕ) → Call
  invalidate : (lun sctrnum nr_sctr : ℕ) → Call

-- The call; what it answers is left to the caller.
abbrev pub run_call : Call → Cmd (Unit {0})
run_call (addcdev mem nr_sctr cdctx) = sce_addcdev mem nr_sctr cdctx >> pure tt
run_call (rmcdev devnum) = sce_rmcdev devnum >> pure tt
run_call (addlun mem nr_sctr lunctx) = sce_addlun mem nr_sctr lunctx >> pure tt
run_call (get4read lun sctrnum nr_sctr) = sce_get4read lun sctrnum nr_sctr >> pure tt
run_call (invalidate lun sctrnum nr_sctr) = sce_invalidate lun sctrnum nr_sctr >> pure tt

abbrev pub run_calls : List Call → Cmd (Unit {0})
run_calls [] = pure tt
run_calls (c ∷ cs) = run_call c >> run_calls cs

-- The sizes that fragment numbers can name, and requests that do not wrap.
abbrev pub Fit : Call → Type 0
Fit (addcdev mem nr_sctr cdctx) = nr_sctr / sce_sctrperfrag ≤ 2 ^ 24
Fit (rmcdev devnum) = devnum < sce_maxcdev
Fit (addlun mem nr_sctr lunctx) = nr_sctr ≤ fragnum_free * sce_sctrperfrag
Fit (get4read lun sctrnum nr_sctr) = (lun < sce_maxlun) × Request sctrnum nr_sctr
Fit (invalidate lun sctrnum nr_sctr) = (lun < sce_maxlun) × Request sctrnum nr_sctr

abbrev pub AllFit : List Call → Type 0
AllFit [] = Unit {0}
AllFit (c ∷ cs) = Fit c × AllFit cs

invalidate_refused :
    (s : Sce) (i sctrnum nr_sctr : ℕ)
    → lock_lun (s.luntbl i) sctrnum nr_sctr true ≡ false
    → sce_invalidate i sctrnum nr_sctr s ≡ ok error s
unfolding sce_invalidate
invalidate_refused s i sctrnum nr_sctr h = rw (h, sce_invalidate) refl

run_call-Inv :
    (c : Call) (s : Sce) (ls : List Loc)
    → Inv s ls
    → Fit c
    → (s' : Sce) × (ls' : List Loc) × (run_call c s ≡ ok tt s') × Inv s' ls'
run_call-Inv (addcdev mem nr_sctr cdctx) s ls v f =
    let (out, s', ls', run, w, _) = sce_addcdev-Inv s ls mem nr_sctr cdctx v f in
    (s', ls', rw run refl, w)
run_call-Inv (rmcdev devnum) s ls v f =
    let (ret, s', ls', run, w) = sce_rmcdev-Inv s ls devnum v f in (s', ls', rw run refl, w)
run_call-Inv (addlun mem nr_sctr lunctx) s ls v f =
    let (out, s', run, w) = sce_addlun-Inv s ls mem nr_sctr lunctx v f in (s', ls, rw run refl, w)
run_call-Inv (get4read lun sctrnum nr_sctr) s ls v (hi, r) =
    let (out, s', run, w, _) = sce_get4read-ReadEnd s ls lun sctrnum nr_sctr v hi r in
    (s', ls, rw run refl, w)
run_call-Inv (invalidate lun sctrnum nr_sctr) s ls v (hi, r) =
    elim (Bool-cases (lock_lun (s.luntbl lun) sctrnum nr_sctr true)) [
      | inl locked ↦
          let (s', ls', run, k, _) = sce_invalidate-Dirty s ls lun sctrnum nr_sctr v hi r locked in
          (s', ls', rw run refl, k.inv)
      | inr refused ↦
          let run = invalidate_refused s lun sctrnum nr_sctr refused in (s, ls, rw run refl, v)
    ]

run_all-Inv :
    (cs : List Call) (s : Sce) (ls : List Loc)
    → Inv s ls
    → AllFit cs
    → (s' : Sce) × (ls' : List Loc) × (run_calls cs s ≡ ok tt s') × Inv s' ls'
run_all-Inv [] s ls v f = (s, ls, refl, v)
run_all-Inv (c ∷ cs) s ls v (f, fs) =
    let (s1, ls1, run1, v1) = run_call-Inv c s ls v f in
    let (s2, ls2, run2, v2) = run_all-Inv cs s1 ls1 v1 fs in (s2, ls2, rw run1 run2, v2)

-- From a new engine any sequence of calls of `sce_addcdev`, `sce_rmcdev`, `sce_addlun`,
-- `sce_get4read` and `sce_invalidate`, with sizes that fragment numbers can name and requests that do not wrap, runs to its
-- end: no BUG_ON is met, no bad memory is read, no loop runs out of fuel. The engine is then in the
-- invariant.
pub run_calls-Inv :
    (cs : List Call)
    → AllFit cs
    → (s : Sce) × (s' : Sce) × (ls' : List Loc) × (sce_create true ≡ some s)
      × (run_calls cs s ≡ ok tt s')
      × Inv s' ls'
run_calls-Inv cs f =
    let (s, made, v) = sce_create-Inv in
    let (s', ls', run, w) = run_all-Inv cs s [] v f in (s, s', ls', made, run, w)
