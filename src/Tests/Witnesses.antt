-- ===== src/Tests/Witnesses.antt =====
-- The theorems at concrete states: the cache of one fragment, and single bitmaps.
use mathlib.Core.Path.{subst}
use iostash.Prelude.{
  true, none, ◌<◌, ap, sym, ◌∙◌, Bool-cases, inl, inr, ltb, ℕ, ◌+◌, ◌^◌, ◌≡◌, false, arith, Option,
  some, refl, List, [], ◌∷◌,
}
use iostash.State.{desc_in, Sce, Ret, success, error, ok, Loc, Frag, Bitmap, set_frag, set_desc}
use iostash.Word.{is_valid, fragdesc_data}
use iostash.Fragment.{set_bitmap, check_bitmap, frag_invalidate, frag_isvalid}
use iostash.Fragment.Pages.{page, any_in}
use iostash.Fragment.Set.{SetPages, set_bitmap-SetPages}
use iostash.Fragment.Check.{verdict, check_bitmap-any_in}
use iostash.Fragment.Laws.{new_frag-Counted}
use iostash.FreeList.{freefraglist_put, freefraglist_get}
use iostash.FreeList.Stack.{put_state, take_state, freefraglist_put-push, freefraglist_get-pop}
use iostash.Invariant.{FreeList, Inv, Points}
use iostash.Mapping.{map_frag, unmap_frag}
use iostash.Mapping.Laws.{Claimed, unmap_state, unmap_frag-release, map_frag-claim}
use iostash.Eviction.{evict_frag}
use iostash.Eviction.Laws.{Evicted, evict_frag-Evicted}
use iostash.Population.{alloc4population, choose4population, complete_population}
use iostash.Population.Alloc.{Outcome, alloc4population-Outcome}
use iostash.Fragment.Reads.{frag_isvalid-frag_invalidate, frag_isvalid-frag_invalidate_other}
use iostash.Misslog.{misslog_get}
use iostash.Misslog.Recent.{put_log, misslog_get-put_log}
use iostash.Population.Finish.{completed, complete_population-completed}
use iostash.Population.Choice.{InBounds, Choice, choose4population-Choice}
use iostash.Interface.Task.{Poptask, sce_get_status, sce_get4pop}
use iostash.Pdm.{Cfg}
use iostash.Pdm.Round.{Unread, pdm_round, pdm_round-Unread}
use iostash.Interface.Task.Get.{Task, sce_get4pop-Task}
use iostash.Tests.Device.{
  logged_state, logged_state-Inv, volume, here, free_state, used_state, spare_state, here-IsFrag,
  free_state-Inv, used_state-Inv, spare_state-Inv, used_state-MapsTo,
}

alloc4population-Outcome_example :
    (out : Option ℕ) × (s' : Sce) × (alloc4population 0 0 free_state ≡ ok out s')
    × Outcome free_state 0 0 out s'
alloc4population-Outcome_example =
    alloc4population-Outcome free_state (here ∷ []) 0 0 free_state-Inv (omega arith) refl refl

evict_frag-Evicted_example :
    (ret : Ret) × (s' : Sce) × (ls' : List Loc) × (evict_frag (used_state 0) ≡ ok ret s')
    × Evicted (used_state 0) [] ret s' ls'
evict_frag-Evicted_example = evict_frag-Evicted (used_state 0) [] (used_state-Inv 0)

unmap_frag-release_example :
    (unmap_frag 0 0 (used_state 0) ≡ ok success (unmap_state 0 0 here (used_state 0)))
    × Inv (unmap_state 0 0 here (used_state 0)) (here ∷ [])
unmap_frag-release_example =
    unmap_frag-release (used_state-Inv 0) 0 0 here refl refl (used_state-MapsTo 0) refl

map_frag-claim_example :
    (f : Frag) × (map_frag 0 0 0 spare_state
      ≡ ok success (set_desc 0 0 (2 ^ 31 + fragdesc_data 0) (set_frag here f spare_state)))
    × Inv (set_desc 0 0 (2 ^ 31 + fragdesc_data 0) (set_frag here f spare_state)) []
    × Claimed 0 0 f
map_frag-claim_example =
    map_frag-claim spare_state 0 0 0 here spare_state-Inv (omega arith) refl refl (here-IsFrag _)
      refl (refl, refl)

freefraglist_put-push_example :
    (freefraglist_put 0 spare_state ≡ ok success (put_state 0 here spare_state))
    × FreeList (put_state 0 here spare_state) (here ∷ [])
freefraglist_put-push_example =
    freefraglist_put-push spare_state spare_state-Inv.list 0 here (omega arith) refl (omega arith)

freefraglist_get-pop_example :
    (freefraglist_get free_state ≡ ok (some (2 ^ 31)) (take_state here free_state))
    × FreeList (take_state here free_state) []
    × Points (2 ^ 31) here
freefraglist_get-pop_example = freefraglist_get-pop free_state free_state-Inv.list

abbrev no_pages : Bitmap
no_pages = λ i j. false

set_bitmap-SetPages_example :
    (out : Bitmap × ℕ) × (set_bitmap no_pages 30 40 ≡ some out) × SetPages no_pages 30 40 0 out
set_bitmap-SetPages_example = set_bitmap-SetPages no_pages 30 40

check_bitmap-any_in_example :
    check_bitmap no_pages 30 40 ≡ some (verdict (any_in (page no_pages) 30 40))
check_bitmap-any_in_example = check_bitmap-any_in no_pages 30 40

frag_isvalid-frag_invalidate_example :
    (f : Frag) × (n : ℕ) × (frag_invalidate here 30 40 (used_state 0)
      ≡ ok n (set_frag here f (used_state 0)))
    × (frag_isvalid here 69 3 (set_frag here f (used_state 0))
        ≡ ok error (set_frag here f (used_state 0)))
frag_isvalid-frag_invalidate_example =
    frag_isvalid-frag_invalidate (used_state 0) here 30 40 69 3 new_frag-Counted (omega arith)
      (omega arith) (omega arith) (omega arith) (69, refl, refl)

frag_isvalid-frag_invalidate_other_example :
    (f : Frag) × (n : ℕ) × (ret : Ret) × (frag_invalidate here 30 40 (used_state 0)
      ≡ ok n (set_frag here f (used_state 0)))
    × (frag_isvalid here 70 3 (used_state 0) ≡ ok ret (used_state 0))
    × (frag_isvalid here 70 3 (set_frag here f (used_state 0))
        ≡ ok ret (set_frag here f (used_state 0)))
frag_isvalid-frag_invalidate_other_example =
    frag_isvalid-frag_invalidate_other (used_state 0) here 30 40 70 3 new_frag-Counted (omega arith)
      (omega arith) (omega arith) (omega arith) (λ p h. ground arith)

misslog_get-put_log_example :
    misslog_get (put_log ((0, 4) ∷ (0, 3) ∷ []) spare_state) 1 ≡ (success, some (0, 3))
misslog_get-put_log_example =
    misslog_get-put_log ((0, 4) ∷ (0, 3) ∷ []) spare_state 1
      (record { head = omega arith; size = omega arith }) refl (omega arith)

abbrev or_first : Option (ℕ × ℕ) → ℕ × ℕ
or_first none = (0, 0)
or_first (some e) = e

abbrev logged : Ret × Option (ℕ × ℕ) → ℕ × ℕ
logged p = or_first p.1

logged_state-entry : (j : ℕ) → logged (misslog_get logged_state j) ≡ (0, 0)
unfolding misslog_get
logged_state-entry j = elim (Bool-cases (ltb j 1)) [ inl e ↦ rw e refl | inr ne ↦ rw ne refl ]

pub logged_state-InBounds : InBounds logged_state
logged_state-InBounds j lun fragnum e =
    let same = sym (logged_state-entry j) ∙ ap logged e in
    subst (λ (p : ℕ × ℕ). p.1 < (volume 5 p.0).nr_frag) same (omega arith)

choose4population-Choice_example :
    (out : Option (ℕ × ℕ)) × (choose4population logged_state ≡ ok out logged_state)
    × Choice logged_state 0 100 none out
choose4population-Choice_example = choose4population-Choice logged_state logged_state-InBounds

complete_population-completed_example :
    (complete_population 0 0 (used_state 1) ≡ ok success (completed 0 0 here (used_state 1)))
    × Inv (completed 0 0 here (used_state 1)) []
    × (is_valid (desc_in (completed 0 0 here (used_state 1)).luntbl 0 0) ≡ true)
complete_population-completed_example =
    complete_population-completed (used_state-Inv 1) 0 0 here refl refl (used_state-MapsTo 1) refl
      refl refl (omega arith)

sce_get4pop-Task_example :
    (out : Option Poptask) × (s' : Sce) × (ls' : List Loc) × (sce_get4pop logged_state ≡ ok out s')
    × Inv s' ls'
    × Task logged_state out s'
sce_get4pop-Task_example =
    sce_get4pop-Task logged_state (here ∷ []) logged_state-Inv logged_state-InBounds

-- a thread that always asks
abbrev pub eager : Cfg
eager = record { period_ms = 200; target_missrate = 0; min_freefragper = 0 }

pdm_round-Unread_example :
    (s' : Sce) × (ls' : List Loc) × (pdm_round
        (λ task. false)
        (λ task. true)
        eager
        (sce_get_status logged_state)
        logged_state
      ≡ ok (sce_get_status logged_state) s')
    × Inv s' ls'
    × Unread (λ task. false) (λ task. true) eager (sce_get_status logged_state) logged_state s'
pdm_round-Unread_example =
    pdm_round-Unread (λ task. false) (λ task. true) eager (sce_get_status logged_state) logged_state
      (here ∷ []) logged_state-Inv logged_state-InBounds (λ task. refl)
