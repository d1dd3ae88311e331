-- ===== src/Host/Ssd/All/Unload.antt =====
-- One cache device is unloaded: the engine, the table, and the other devices.
use iostash.Prelude.{
  ℕ, ◌<◌, ◌≡◌, ◌==◌, true, false, refl, ap, ◌∙◌, none, some, List, update, update_self,
  update_other, inl, inr, Option-cases,
}
use iostash.Word.{sce_maxcdev, u32_sub}
use iostash.State.{Loc}
use iostash.Invariant.{Inv}
use iostash.Interface.Config.Removed.{sce_rmcdev-Inv}
use iostash.Host.{Host, SsdInfo, set_ssd, iostash_maxssd_bckts}
use iostash.Host.Table.{bucket, remove}
use iostash.Host.Ssd.{unload_ssd, drop_cdev, take_offline}
use iostash.Host.Ssd.Offline.{take_offline-unlisted}
use iostash.Host.Ssd.All.{Listed}

module _ (hash : ℕ → ℕ) where
  -- What an unloaded device leaves.
  pub record Unloaded (p i : ℕ) (w w' : Host) : Type 0 where
    pub engine : (ls' : List Loc) × Inv w'.sce ls'
    pub table : w'.ssdtbl ≡ update w.ssdtbl i (remove p (w.ssdtbl i))
    pub others : (q : ℕ) → (q == p) ≡ false → w'.ssds q ≡ w.ssds q

  -- The engine gives the device up; the table and what the device is stay.
  pub record Dropped (p : ℕ) (w w' : Host) : Type 0 where
    pub engine : (ls' : List Loc) × Inv w'.sce ls'
    pub table : w'.ssdtbl ≡ w.ssdtbl
    pub count : w'.nr_ssd ≡ w.nr_ssd
    pub online : (w'.ssds p).online ≡ (w.ssds p).online
    pub dev_t : (w'.ssds p).dev_t ≡ (w.ssds p).dev_t
    pub nr_ref : (w'.ssds p).nr_ref ≡ (w.ssds p).nr_ref
    pub others : (q : ℕ) → (q == p) ≡ false → w'.ssds q ≡ w.ssds q

  pub drop_cdev-Dropped :
      (p : ℕ) (w : Host) (ls : List Loc)
      → Inv w.sce ls
      → ((c : ℕ) → (w.ssds p).cdev ≡ some c → c < sce_maxcdev)
      → (w' : Host) × (drop_cdev hash p w ≡ some w') × Dropped p w w'
  unfolding drop_cdev
  drop_cdev-Dropped p w ls v index = elim (Option-cases (w.ssds p).cdev) [
    | inl e ↦ (
      w,
      rw (drop_cdev, e) refl,
      record {
        engine = (ls, v);
        table = refl;
        count = refl;
        online = refl;
        dev_t = refl;
        nr_ref = refl;
        others = λ q h. refl;
      },
    )
    | inr (c, e) ↦
        let (ret, s', ls', run, v') = sce_rmcdev-Inv w.sce ls c v (index c e) in
        let w1 : Host = record w { sce = s' } in
        let x : SsdInfo = record (w.ssds p) { cdev = none } in
        (
          set_ssd p x w1,
          rw (drop_cdev, e, run) refl,
          record {
            engine = (ls', v');
            table = refl;
            count = refl;
            online = ap SsdInfo.online (update_self w.ssds p x);
            dev_t = ap SsdInfo.dev_t (update_self w.ssds p x);
            nr_ref = ap SsdInfo.nr_ref (update_self w.ssds p x);
            others = λ q h. update_other w.ssds p q x h;
          },
        )
  ]

  -- The device off its table.
  abbrev offline : (p i : ℕ) → Host → Host
  offline p i w = record (set_ssd p (record (w.ssds p) { online = false }) w) {
    ssdtbl = update w.ssdtbl i (remove p (w.ssdtbl i));
    nr_ssd = u32_sub w.nr_ssd 1;
  }

  take_offline_lem :
      (p i : ℕ) (w : Host)
      → (w.ssds p).online ≡ true
      → (w.ssds p).nr_ref ≡ 0
      → bucket hash iostash_maxssd_bckts (w.ssds p).dev_t ≡ i
      → take_offline hash p w ≡ some (offline p i w)
  take_offline_lem p i w online idle place =
      let x : SsdInfo = record (w.ssds p) { online = false } in
      let same : bucket hash iostash_maxssd_bckts (update w.ssds p x p).dev_t ≡ i =
        ap (λ (y : SsdInfo). bucket hash iostash_maxssd_bckts y.dev_t) (update_self w.ssds p x)
        ∙ place in
      take_offline-unlisted hash p w online idle
      ∙ ap
          (λ b. some (record (set_ssd p x w) {
            ssdtbl = update w.ssdtbl b (remove p (w.ssdtbl b));
            nr_ssd = u32_sub w.nr_ssd 1;
          }))
          same

  -- The last write of `_unload_ssd`.
  abbrev pub closed : (p : ℕ) → Host → Host
  closed p w = set_ssd p (record (w.ssds p) { has_bdev = false }) w

  pub unload_run :
      (p : ℕ) (w w1 w2 : Host)
      → drop_cdev hash p w ≡ some w1
      → take_offline hash p w1 ≡ some w2
      → unload_ssd hash p w ≡ some (closed p w2)
  unfolding unload_ssd
  unload_run p w w1 w2 run off = rw (unload_ssd, run, off) refl

  pub unload_ssd-Unloaded :
      (p i : ℕ) (w : Host) (ls : List Loc)
      → Inv w.sce ls
      → Listed hash i (w.ssds p)
      → (w' : Host) × (unload_ssd hash p w ≡ some w') × Unloaded p i w w'
  unload_ssd-Unloaded p i w ls v h =
      let (w1, run, d) = drop_cdev-Dropped p w ls v h.index in
      let gone =
        take_offline_lem p i w1 (d.online ∙ h.online) (d.nr_ref ∙ h.idle)
          (ap (bucket hash iostash_maxssd_bckts) d.dev_t ∙ h.place) in
      let w2 = offline p i w1 in
      (
        closed p w2,
        unload_run p w w1 w2 run gone,
        record {
          engine = d.engine;
          table = ap (λ t. update t i (remove p (t i))) d.table;
          others = λ q ne.
              update_other w2.ssds p q (record (w2.ssds p) { has_bdev = false }) ne
              ∙ update_other w1.ssds p q (record (w1.ssds p) { online = false }) ne
              ∙ d.others q ne;
        },
      )
