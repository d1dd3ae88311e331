-- ===== src/Host/Ssd/Registry.antt =====
-- A cache device that comes and goes: the table and the engine.
use mathlib.Core.Path.{fun_ext}
use iostash.Prelude.{
  ℕ, ◌+◌, ◌-◌, ◌^◌, ◌≤◌, ◌<◌, ◌≡◌, ◌≢◌, ◌==◌, ltb, true, false, arith, refl, ap, ◌∙◌, sym, Option,
  none, some, List, [], ◌∷◌, if◌then◌else◌, update, update_self, update_other, update-update,
  Bool-cases, inl, inr, ==_iff,
}
use iostash.Word.{u32_add}
use iostash.State.{Sce, Ret, ok}
use iostash.Interface.Config.{sce_addcdev, sce_rmcdev}
use iostash.Host.{Host, SsdInfo, set_ssd, iostash_headersct, iostash_maxssd_bckts}
use iostash.Host.Table.{search_ssd, find_dev, insert_ssd, bucket, remove, mem}
use iostash.Host.Ssd.{
  SsdProbe, new_ssd, alloc_ssd, list_ssd, open_ssd, start_ssd, register_ssd, ssd_register,
  ssd_unregister, unload_ssd, drop_cdev,
}
use iostash.Host.Ssd.Offline.{off, unlisted, take_offline-unlisted}

-- The kernel's answers for a new device `dev` that is large enough, with the memory `p`.
pub record Willing (k : SsdProbe) (dev p : ℕ) : Type 0 where
  pub lookup : k.lookup ≡ some dev
  pub kzalloc : k.kzalloc ≡ some p
  pub opens : k.opens ≡ true
  pub alone : k.bd_openers ≤ 1
  pub size : iostash_headersct ≤ k.nr_sects
  pub kobject : k.kobject ≡ true

-- What a registered device has, and that the other devices are as they were.
pub record Registered (hash : ℕ → ℕ) (w w' : Host) (dev p i nr_sctr : ℕ) : Type 0 where
  pub online : (w'.ssds p).online ≡ true
  pub has_bdev : (w'.ssds p).has_bdev ≡ true
  pub dev_t : (w'.ssds p).dev_t ≡ dev
  pub cdev : (w'.ssds p).cdev ≡ some i
  pub nr_sctr_lem : (w'.ssds p).nr_sctr ≡ nr_sctr
  pub idle : (w'.ssds p).nr_ref ≡ 0
  pub others : (q : ℕ) → (q == p) ≡ false → w'.ssds q ≡ w.ssds q
  pub table :
      w'.ssdtbl
      ≡ update w.ssdtbl
          (bucket hash iostash_maxssd_bckts dev)
          (p ∷ w.ssdtbl (bucket hash iostash_maxssd_bckts dev))
  pub count : w'.nr_ssd ≡ u32_add w.nr_ssd 1

insert_lem :
    (hash : ℕ → ℕ) (p dev : ℕ) (x : Host)
    → (x.ssds p).dev_t ≡ dev
    → dev ≢ 0
    → insert_ssd hash p x
      ≡ some (record x {
        ssdtbl =
            update x.ssdtbl
              (bucket hash iostash_maxssd_bckts dev)
              (p ∷ x.ssdtbl (bucket hash iostash_maxssd_bckts dev));
      })
insert_lem hash p dev x e ne =
    let dev_test : (dev == 0) ≡ false = ground (arith, ne) in rw (e, dev_test) refl

module _ (hash : ℕ → ℕ) (k : SsdProbe) (w : Host) (dev p i : ℕ) (s : Sce) where
  abbrev w1 : Host
  w1 = set_ssd p (new_ssd dev) w

  abbrev filled : Option ℕ → SsdInfo
  filled cdev = record (new_ssd dev) {
    has_bdev = true;
    nr_sctr = k.nr_sects - iostash_headersct;
    queue_max_hw_sectors = k.max_hw_sectors;
    cdev = cdev;
  }

  -- the host when the engine is asked, once it has answered, with the structure in the table, and at the end
  abbrev asked : Host
  asked = set_ssd p (filled none) (set_ssd p (record (new_ssd dev) { has_bdev = true }) w1)

  abbrev answered : Host
  answered = set_ssd p (filled (some i)) (record asked { sce = s })

  abbrev listed : Host
  listed = record answered {
    ssdtbl =
        update w.ssdtbl (bucket hash iostash_maxssd_bckts dev)
          (p ∷ w.ssdtbl (bucket hash iostash_maxssd_bckts dev));
  }

  abbrev registered : Host
  registered =
      let w5 = set_ssd p (record (filled (some i)) { online = true }) listed in
      record w5 { nr_ssd = u32_add w5.nr_ssd 1 }

  registered-Registered : Registered hash w registered dev p i (k.nr_sects - iostash_headersct)
  registered-Registered =
      let x = record (filled (some i)) { online = true } in
      let at_p : registered.ssds p ≡ x = update_self listed.ssds p x in
      record {
        online = ap SsdInfo.online at_p;
        has_bdev = ap SsdInfo.has_bdev at_p;
        dev_t = ap SsdInfo.dev_t at_p;
        cdev = ap SsdInfo.cdev at_p;
        nr_sctr_lem = ap SsdInfo.nr_sctr at_p;
        idle = ap SsdInfo.nr_ref at_p;
        others = λ q ne.
            update_other listed.ssds p q x ne
            ∙ update_other asked.ssds p q (filled (some i)) ne
            ∙ update_other (set_ssd p (record (new_ssd dev) { has_bdev = true }) w1).ssds p q
                (filled none) ne
            ∙ update_other w1.ssds p q (record (new_ssd dev) { has_bdev = true }) ne
            ∙ update_other w.ssds p q (new_ssd dev) ne;
        table = refl;
        count = refl;
      }

  list_ssd-registered :
      dev ≢ 0 → list_ssd hash p (filled (some i)) answered ≡ some (true, registered)
  unfolding list_ssd
  list_ssd-registered ne =
      let at_p : answered.ssds p ≡ filled (some i) = update_self asked.ssds p (filled (some i)) in
      let ins : insert_ssd hash p answered ≡ some listed =
        insert_lem hash p dev answered (ap SsdInfo.dev_t at_p) ne in
      rw (list_ssd, ins) refl

  open_ssd-registered :
      Willing k dev p
      → dev ≢ 0
      → sce_addcdev k.vmalloc (k.nr_sects - iostash_headersct) p w.sce ≡ ok (some i) s
      → open_ssd hash k p
          (record (new_ssd dev) { has_bdev = true })
          (set_ssd p (record (new_ssd dev) { has_bdev = true }) w1)
        ≡ some (true, registered)
  unfolding open_ssd
  open_ssd-registered y ne run =
      let one : ltb 1 k.bd_openers ≡ false = ground (arith, y.alone) in
      let big : ltb k.nr_sects iostash_headersct ≡ false = ground (arith, y.size) in
      rw (open_ssd, one, big, run, y.kobject) (list_ssd-registered ne)

  start_ssd-registered :
      Willing k dev p
      → dev ≢ 0
      → sce_addcdev k.vmalloc (k.nr_sects - iostash_headersct) p w.sce ≡ ok (some i) s
      → start_ssd hash k p w1 ≡ some (true, registered)
  unfolding start_ssd
  start_ssd-registered y ne run =
      let got : w1.ssds p ≡ new_ssd dev = update_self w.ssds p (new_ssd dev) in
      let opened : start_ssd hash k p w1
          ≡ open_ssd hash k p (record (w1.ssds p) { has_bdev = true })
              (set_ssd p (record (w1.ssds p) { has_bdev = true }) w1) =
        rw (start_ssd, y.opens) refl in
      opened
      ∙ ap
          (λ (x : SsdInfo).
            open_ssd hash k p (record x { has_bdev = true })
              (set_ssd p (record x { has_bdev = true }) w1))
          got
      ∙ open_ssd-registered y ne run

  -- Whenever the kernel and the engine accept a device that is not in the table, `ssd_register` succeeds,
  -- and the table finds it, online and with the engine's index.
  pub ssd_register-Registered :
      Willing k dev p
      → dev ≢ 0
      → search_ssd hash w dev ≡ none
      → sce_addcdev k.vmalloc (k.nr_sects - iostash_headersct) p w.sce ≡ ok (some i) s
      → (w' : Host) × (ssd_register hash k w ≡ some (true, w'))
        × (search_ssd hash w' dev ≡ some p)
        × Registered hash w w' dev p i (k.nr_sects - iostash_headersct)
        × (w'.sce ≡ s)
  unfolding ssd_register register_ssd alloc_ssd
  ssd_register-Registered y ne fresh run =
      let start = start_ssd-registered y ne run in
      let reg = registered-Registered in
      let alloc : alloc_ssd hash k w ≡ (some p, w1) =
        rw (alloc_ssd, y.lookup, fresh, y.kzalloc) refl in
      let dev_test : (dev == 0) ≡ false = ground (arith, ne) in
      let b = bucket hash iostash_maxssd_bckts dev in
      let front : registered.ssdtbl b ≡ (p ∷ w.ssdtbl b) =
        update_self w.ssdtbl b (p ∷ w.ssdtbl b) in
      let here : ((registered.ssds p).dev_t == dev) ≡ true = ground (arith, reg.dev_t) in
      (
        registered,
        rw (ssd_register, alloc, register_ssd, start) refl,
        rw (dev_test, front, here) refl,
        reg,
        refl,
      )

update_same : (t : ℕ → List ℕ) (b : ℕ) → update t b (t b) ≡ t
update_same t b = fun_ext λ j. elim (Bool-cases (j == b)) [
  | inl e ↦
      ap (update t b (t b)) ((==_iff j b).0 e)
      ∙ update_self t b (t b)
      ∙ ap t (sym ((==_iff j b).0 e))
  | inr ne ↦ update_other t b j (t b) ne
]

remove_front : (p : ℕ) (l : List ℕ) → remove p (p ∷ l) ≡ l
remove_front p l = ground arith

-- The table with the structure put in front of its bucket and taken out again.
remove_put :
    (t : ℕ → List ℕ) (b p : ℕ)
    → update (update t b (p ∷ t b)) b (remove p (update t b (p ∷ t b) b)) ≡ t
remove_put t b p =
    ap (λ l. update (update t b (p ∷ t b)) b (remove p l)) (update_self t b (p ∷ t b))
    ∙ ap (update (update t b (p ∷ t b)) b) (remove_front p (t b))
    ∙ update-update t b (p ∷ t b) (t b)
    ∙ update_same t b

module _ (hash : ℕ → ℕ) (p : ℕ) where
  abbrev dropped : Sce → Host → Host
  dropped s x = set_ssd p (record (x.ssds p) { cdev = none }) (record x { sce = s })

  drop_cdev_lem :
      (x : Host) (i : ℕ) (r : Ret) (s : Sce)
      → (x.ssds p).cdev ≡ some i
      → sce_rmcdev i x.sce ≡ ok r s
      → drop_cdev hash p x ≡ some (dropped s x)
  unfolding drop_cdev
  drop_cdev_lem x i r s h run = rw (drop_cdev, h, run) refl

  -- The search does not see what changes at an address that is not in the list.
  find_dev-others :
      (f g : ℕ → ℕ) (dev : ℕ) (l : List ℕ)
      → mem p l ≡ false
      → ((q : ℕ) → (q == p) ≡ false → f q ≡ g q)
      → find_dev f dev l ≡ find_dev g dev l
  find_dev-others f g dev [] out same = refl
  find_dev-others f g dev (q ∷ l) out same =
      let here : (q == p) ≡ false = ground (arith, out) in
      let later : mem p l ≡ false = ground (arith, out) in
      ap (λ d. if d == dev then some q else find_dev f dev l) (same q here)
      ∙ ap (λ o. if g q == dev then some q else o) (find_dev-others f g dev l later same)

  -- What was registered as a cache device is found no more once it is unregistered, if it was not in
  -- the table before, its memory was new there, `sce_rmcdev` ends, and fewer than 2^32 - 1 were
  -- registered: the table and the count are those from before the registration.
  pub ssd_unregister-Registered :
      (w w' : Host) (dev i n : ℕ) (r : Ret) (s : Sce)
      → Registered hash w w' dev p i n
      → search_ssd hash w dev ≡ none
      → mem p (w.ssdtbl (bucket hash iostash_maxssd_bckts dev)) ≡ false
      → search_ssd hash w' dev ≡ some p
      → sce_rmcdev i w'.sce ≡ ok r s
      → w.nr_ssd + 1 < 2 ^ 32
      → (w'' : Host) × (ssd_unregister hash (some dev) w' ≡ some w'')
        × (search_ssd hash w'' dev ≡ none)
        × (w''.ssdtbl ≡ w.ssdtbl)
        × (w''.nr_ssd ≡ w.nr_ssd)
        × ((w''.ssds p).has_bdev ≡ false)
        × (w''.sce ≡ s)
  unfolding ssd_unregister unload_ssd
  ssd_unregister-Registered w w' dev i n r s g fresh new found run small =
      let x = dropped s w' in
      let at_p : x.ssds p ≡ record (w'.ssds p) { cdev = none } =
        update_self w'.ssds p (record (w'.ssds p) { cdev = none }) in
      let y = unlisted hash p x in
      let z = set_ssd p (record (y.ssds p) { has_bdev = false }) y in
      let drop = drop_cdev_lem w' i r s g.cdev run in
      let offline =
        take_offline-unlisted hash p x (ap SsdInfo.online at_p ∙ g.online)
          (ap SsdInfo.nr_ref at_p ∙ g.idle) in
      let same_dev : ((off hash p x).ssds p).dev_t ≡ dev =
        ap SsdInfo.dev_t (update_self x.ssds p (record (x.ssds p) { online = false }))
        ∙ ap SsdInfo.dev_t at_p
        ∙ g.dev_t in
      let b = bucket hash iostash_maxssd_bckts dev in
      let emptied : y.ssdtbl ≡ update w'.ssdtbl b (remove p (w'.ssdtbl b)) =
        ap
          (λ j.
            update w'.ssdtbl (bucket hash iostash_maxssd_bckts j)
              (remove p (w'.ssdtbl (bucket hash iostash_maxssd_bckts j))))
          same_dev in
      let restored : z.ssdtbl ≡ w.ssdtbl =
        emptied ∙ ap (λ t. update t b (remove p (t b))) g.table ∙ remove_put w.ssdtbl b p in
      let others : (q : ℕ) → (q == p) ≡ false → z.ssds q ≡ w.ssds q = λ q ne.
        update_other y.ssds p q (record (y.ssds p) { has_bdev = false }) ne
        ∙ update_other x.ssds p q (record (x.ssds p) { online = false }) ne
        ∙ update_other w'.ssds p q (record (w'.ssds p) { cdev = none }) ne
        ∙ g.others q ne in
      let search : (ℕ → ℕ) → List ℕ → Option ℕ =
        λ f l. if dev == 0 then none else find_dev f dev l in
      let lost : search_ssd hash z dev ≡ none =
        ap (λ t. search (λ q. (z.ssds q).dev_t) (t b)) restored
        ∙ ap (λ o. if dev == 0 then none else o)
            (find_dev-others (λ q. (z.ssds q).dev_t) (λ q. (w.ssds q).dev_t) dev (w.ssdtbl b) new
              (λ q ne. ap SsdInfo.dev_t (others q ne)))
        ∙ fresh in
      (
        z,
        rw (ssd_unregister, found, unload_ssd, drop, offline) refl,
        lost,
        restored,
        omega (arith, g.count, small),
        ap SsdInfo.has_bdev (update_self y.ssds p (record (y.ssds p) { has_bdev = false })),
        refl,
      )
