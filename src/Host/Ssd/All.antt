-- ===== src/Host/Ssd/All.antt =====
-- iostash_ssd.c: all cache devices go when the module is unloaded.
pub mod Unload
pub mod Buckets
use iostash.Prelude.{
  ℕ, zero, suc, ◌+◌, ◌≤◌, ◌<◌, ◌≡◌, ◌==◌, Bool, true, false, ◌||◌, refl, ap, ◌∙◌, sym, arith,
  Option, none, some, List, [], ◌∷◌, update, update_self, update_other, Bool-cases, inl, inr,
  ==_iff, Option-cases, if◌then◌else◌,
}
use mathlib.Core.Path.{subst}
use iostash.Word.{sce_maxcdev, u32_sub}
use iostash.State.{Sce, Ret, ok, Loc}
use iostash.Invariant.{Inv}
use iostash.Interface.Config.{sce_rmcdev}
use iostash.Interface.Config.Removed.{sce_rmcdev-Inv}
use iostash.Host.{Host, SsdInfo, ◌>>=◌, set_ssd, iostash_maxssd_bckts}
use iostash.Host.Table.{bucket, mem}
use iostash.Host.Ssd.{unload_ssd, drop_cdev, take_offline}

module _ (hash : ℕ → ℕ) where
  -- The devices of a bucket, as its list was when the walk came to it: `list_for_each_entry_safe` has
  -- the next entry before a device is removed. `kfree` is left out as in `ssd_unregister`.
  unfoldable pub remove_ssds : List ℕ → Host → Option Host
  remove_ssds [] w = some w
  remove_ssds (p ∷ ps) w = do w1 ← unload_ssd hash p w; remove_ssds ps w1

  -- The buckets from `i` on, with `k` left.
  unfoldable pub remove_buckets : (k i : ℕ) → Host → Option Host
  remove_buckets zero i w = some w
  remove_buckets (suc k) i w = do w1 ← remove_ssds (w.ssdtbl i) w; remove_buckets k (suc i) w1

  -- `ssd_unregister_all`
  unfoldable pub ssd_unregister_all : Host → Option Host
  ssd_unregister_all w = remove_buckets iostash_maxssd_bckts 0 w

  -- A device in bucket `i`: online, in the bucket of its number, with an index that the engine gives, and
  -- with no reference held.
  pub record Listed (i : ℕ) (s : SsdInfo) : Type 0 where
    pub online : s.online ≡ true
    pub place : bucket hash iostash_maxssd_bckts s.dev_t ≡ i
    pub index : (c : ℕ) → s.cdev ≡ some c → c < sce_maxcdev
    pub idle : s.nr_ref ≡ 0

  abbrev pub AllListed : Host → ℕ → List ℕ → Type 0
  AllListed w i [] = Unit {0}
  AllListed w i (p ∷ ps) = Listed i (w.ssds p) × (mem p ps ≡ false) × AllListed w i ps
