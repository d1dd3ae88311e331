-- ===== src/Tests/Removal.antt =====
-- The theorems on devices that are removed or refused, and on a round that is undone, at concrete
-- states.
use mathlib.Core.Path.{subst}
use iostash.Prelude.{
  ◌<◌, update, update_other, Bool-cases, inl, inr, ==_iff, ◌==◌, ℕ, ◌≡◌, refl, true, false, arith,
  none, some, List, [], ◌∷◌, ap, ◌∙◌, sym,
}
use iostash.State.{Sce, success, ok, Loc}
use iostash.Invariant.{Inv}
use iostash.Lun.Index.{lun_search, search_from}
use iostash.Mapping.{in_lun}
use iostash.FreeList.{freefraglist_rmcdev}
use iostash.FreeList.Remove.{Removed}
use iostash.FreeList.Remove.Gone.{freefraglist_rmcdev-Removed}
use iostash.Interface.Config.{sce_rmcdev}
use iostash.Interface.Config.Removed.{Detached, sce_rmcdev-Detached}
use iostash.Interface.Task.{sce_get_status}
use iostash.Pdm.Round.{pdm_round}
use iostash.Pdm.Undo.{Steady, Undone, pdm_round-Undone}
use iostash.Tests.Device.{here, free_state, free_state-Inv, logged_state, logged_state-Inv, volume}
use iostash.Host.{Host}
use iostash.Host.Ssd.All.{AllListed, ssd_unregister_all}
use iostash.Host.Ssd.All.Buckets.{ssd_unregister_all-Inv}
use iostash.Tests.Requests.{identity, host, new_probe}
use iostash.Host.Ssd.{SsdProbe}
use iostash.Tests.Witnesses.{eager, logged_state-InBounds}

freefraglist_rmcdev-Removed_example :
    (s' : Sce) × (freefraglist_rmcdev 0 free_state ≡ ok success s')
    × Removed 0 none (here ∷ []) free_state s'
freefraglist_rmcdev-Removed_example =
    freefraglist_rmcdev-Removed free_state (here ∷ []) 0 free_state-Inv.list (omega arith)

sce_rmcdev-Detached_example :
    (s' : Sce) × (sce_rmcdev 0 free_state ≡ ok success s') × Detached 0 free_state s' (here ∷ [])
sce_rmcdev-Detached_example =
    sce_rmcdev-Detached free_state (here ∷ []) 0 free_state-Inv (omega arith) refl

-- LUN 0 is the only one
only_lun : (i n : ℕ) → in_lun (volume 5 i) n ≡ true → i ≡ 0
only_lun i n h = ground arith

first_found : lun_search logged_state 9 ≡ some 0
unfolding lun_search search_from
first_found = refl

logged_state-Steady : Steady logged_state
logged_state-Steady = record {
  by_ctx = λ i n hi inside. first_found ∙ ap some (sym (only_lun i n inside));
  stays = λ i. refl;
}

pdm_round-Undone_example :
    (s' : Sce) × (ls' : List Loc) × (pdm_round
        (λ t. true)
        (λ t. false)
        eager
        (sce_get_status logged_state)
        logged_state
      ≡ ok (sce_get_status logged_state) s')
    × Inv s' ls'
    × Undone eager (sce_get_status logged_state) logged_state s'
pdm_round-Undone_example =
    pdm_round-Undone (λ t. true) (λ t. false) eager (sce_get_status logged_state) logged_state
      (here ∷ []) logged_state-Inv logged_state-InBounds logged_state-Steady (λ t. refl) (λ t. refl)

-- SSD 7 in the bucket of its number
abbrev all_host : Host
all_host = record (host free_state) { ssdtbl = update (λ b. []) 5 (7 ∷ []) }

all_host-AllListed : (j : ℕ) → j < 32 → AllListed identity all_host j (all_host.ssdtbl j)
all_host-AllListed j h = elim (Bool-cases (j == 5)) [
  | inr ne ↦ subst (AllListed identity all_host j) (sym (update_other (λ b. []) 5 j (7 ∷ []) ne)) tt
  | inl e ↦
      subst (λ b. AllListed identity all_host b (all_host.ssdtbl b)) (sym ((==_iff j 5).0 e))
        (
          record { online = refl; place = refl; index = λ c i. ground (arith, i); idle = refl },
          refl,
          tt,
        )
]

ssd_unregister_all-Inv_example :
    (w' : Host) × (ls' : List Loc) × (ssd_unregister_all identity all_host ≡ some w')
    × Inv w'.sce ls'
    × ((j : ℕ) → j < 32 → w'.ssdtbl j ≡ [])
ssd_unregister_all-Inv_example =
    ssd_unregister_all-Inv identity all_host (here ∷ []) free_state-Inv all_host-AllListed

-- the engine takes the device, and its kobject cannot be made
abbrev bare_probe : SsdProbe
bare_probe = record new_probe { kobject = false }
