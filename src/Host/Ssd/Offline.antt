-- ===== src/Host/Ssd/Offline.antt =====
-- `_unload_ssd` of iostash_ssd.c: a device that is online and has no reference goes off its table.
use iostash.Prelude.{ℕ, ◌≡◌, true, false, refl, ap, ◌∙◌, Option, some, update_self, if◌then◌else◌}
use iostash.Word.{u32_sub}
use iostash.Host.{Host, SsdInfo, ◌>>=◌, set_ssd}
use iostash.Host.Table.{delete_ssd}
use iostash.Host.Ssd.{wait_refs, take_offline}

module _ (hash : ℕ → ℕ) (p : ℕ) where
  -- the host with the device marked, and the device off its table
  abbrev pub off : Host → Host
  off x = set_ssd p (record (x.ssds p) { online = false }) x

  abbrev pub unlisted : Host → Host
  unlisted x = record (delete_ssd hash p (off x)) { nr_ssd = u32_sub x.nr_ssd 1 }

  wait_refs_lem : (x : Host) → (x.ssds p).nr_ref ≡ 0 → wait_refs hash p x ≡ some x
  unfolding wait_refs
  wait_refs_lem x h = rw (wait_refs, h) refl

  pub take_offline-unlisted :
      (x : Host)
      → (x.ssds p).online ≡ true
      → (x.ssds p).nr_ref ≡ 0
      → take_offline hash p x ≡ some (unlisted x)
  unfolding take_offline
  take_offline-unlisted x online idle =
      let w1 = delete_ssd hash p (off x) in
      let counted : Host → Host = λ y. record y { nr_ssd = u32_sub y.nr_ssd 1 } in
      let left =
        ap SsdInfo.nr_ref (update_self x.ssds p (record (x.ssds p) { online = false })) ∙ idle in
      ap (λ b. if b then (do y ← wait_refs hash p w1; some (counted y)) else some x) online
      ∙ ap (λ (o : Option Host). do y ← o; some (counted y)) (wait_refs_lem w1 left)
