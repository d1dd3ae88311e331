-- ===== src/Host/Hdd/Again.antt =====
-- A disk that was unregistered, and is registered again.
use mathlib.Core.Path.{fun_ext}
use iostash.Prelude.{
  ℕ, ◌%◌, ◌≡◌, ◌==◌, if◌then◌else◌, false, ◌&&◌, refl, ap, ◌∙◌, Bool, Option, none, some,
  update_self, update_all, Bool-cases, inl, inr,
}
use iostash.State.{Sce, Ret, ok}
use iostash.Interface.Config.{sce_rmlun}
use iostash.Word.{u32_sub}
use iostash.Host.{Host, ◌>>=◌, HddInfo, set_hdd, iostash_maxhdd_bckts}
use iostash.Host.Table.{find_dev, search_hdd}
use iostash.Host.Hdd.{
  HddProbe, is_listed, unhook, wait_idle, put_offline, close_hdd, drop_lun, unload_hdd, alloc_hdd,
  register_hdd, hdd_register, hdd_unregister,
}

-- The table of disks is the same, and the engine and the LUN of `p` too.
record Same (p : ℕ) (w w' : Host) : Type 0 where
  table : w'.hddtbl ≡ w.hddtbl
  dev_t : (q : ℕ) → (w'.hdds q).dev_t ≡ (w.hdds q).dev_t
  lun : (w'.hdds p).lun ≡ (w.hdds p).lun
  sce : w'.sce ≡ w.sce
  io_pending : (w'.hdds p).io_pending ≡ (w.hdds p).io_pending
  nr_ref : (w'.hdds p).nr_ref ≡ (w.hdds p).nr_ref

Same-refl : (p : ℕ) (w : Host) → Same p w w
Same-refl p w = record {
  table = refl;
  dev_t = λ q. refl;
  lun = refl;
  sce = refl;
  io_pending = refl;
  nr_ref = refl;
}

Same-trans : (p : ℕ) (a b c : Host) → Same p a b → Same p b c → Same p a c
Same-trans p a b c x y = record {
  table = y.table ∙ x.table;
  dev_t = λ q. y.dev_t q ∙ x.dev_t q;
  lun = y.lun ∙ x.lun;
  sce = y.sce ∙ x.sce;
  io_pending = y.io_pending ∙ x.io_pending;
  nr_ref = y.nr_ref ∙ x.nr_ref;
}

-- another structure for `p` of the same device and LUN
Same-set_hdd :
    (p : ℕ) (h : HddInfo) (w : Host)
    → h.dev_t ≡ (w.hdds p).dev_t
    → h.lun ≡ (w.hdds p).lun
    → h.io_pending ≡ (w.hdds p).io_pending
    → h.nr_ref ≡ (w.hdds p).nr_ref
    → Same p w (set_hdd p h w)
Same-set_hdd p h w d l m n = record {
  table = refl;
  dev_t = update_all (λ q x. x.dev_t ≡ (w.hdds q).dev_t) w.hdds p h d (λ q. refl);
  lun = ap HddInfo.lun (update_self w.hdds p h) ∙ l;
  sce = refl;
  io_pending = ap HddInfo.io_pending (update_self w.hdds p h) ∙ m;
  nr_ref = ap HddInfo.nr_ref (update_self w.hdds p h) ∙ n;
}

module _ (hash : ℕ → ℕ) (p : ℕ) (w : Host) where
  Same-unhook : (whole : ℕ) → Same p w (unhook hash whole p w)
  unfolding unhook
  Same-unhook whole = elim (Bool-cases ((w.hdds p).org_mapreq && (w.hdds p).has_bdev)) [
    | inl e ↦ rw e (record {
      table = refl;
      dev_t = λ q. refl;
      lun = refl;
      sce = refl;
      io_pending = refl;
      nr_ref = refl;
    })
    | inr e ↦ rw e (Same-refl p w)
  ]

  -- the disk marked, and counted off
  abbrev marked : Host
  marked = set_hdd p (record (w.hdds p) { online = false }) w

  wait_idle_lem :
      (x : Host) → (x.hdds p).io_pending ≡ 0 → (x.hdds p).nr_ref ≡ 0 → wait_idle hash p x ≡ some x
  unfolding wait_idle
  wait_idle_lem x a b = rw (wait_idle, a, b) refl

  Same-put_offline :
      (w.hdds p).io_pending ≡ 0
      → (w.hdds p).nr_ref ≡ 0
      → (x : Host) × (put_offline hash p w ≡ some x) × Same p w x
  unfolding put_offline
  Same-put_offline pending refs =
      let s = Same-set_hdd p (record (w.hdds p) { online = false }) w refl refl refl refl in
      let listed = is_listed hash (search_hdd hash w (w.hdds p).dev_t) p && (w.hdds p).online in
      let counted : Host → Host = λ x. record x { nr_hdd = u32_sub x.nr_hdd 1 } in
      let both : Bool → Option Host =
        λ b. if b then (do x ← wait_idle hash p marked; some (counted x)) else some w in
      elim (Bool-cases listed) [
        | inl e ↦ (
          counted marked,
          ap both e
              ∙ ap (λ (o : Option Host). do x ← o; some (counted x))
                  (wait_idle_lem marked (s.io_pending ∙ pending) (s.nr_ref ∙ refs)),
          record {
            table = s.table;
            dev_t = s.dev_t;
            lun = s.lun;
            sce = s.sce;
            io_pending = s.io_pending;
            nr_ref = s.nr_ref;
          },
        )
        | inr e ↦ (w, ap both e, Same-refl p w)
      ]

  Same-close_hdd : Same p w (close_hdd hash p w)
  unfolding close_hdd
  Same-close_hdd =
      Same-set_hdd p
        (record (w.hdds p) { io_queue = false; io_pool = false; bs = false; has_bdev = false }) w
        refl refl refl refl

  drop_lun_lem :
      (i : ℕ) (r : Ret) (s : Sce)
      → (w.hdds p).lun ≡ some i
      → sce_rmlun i w.sce ≡ ok r s
      → drop_lun hash p w
        ≡ some (set_hdd p (record (w.hdds p) { lun = none }) (record w { sce = s }))
  unfolding drop_lun
  drop_lun_lem i r s l run = rw (drop_lun, l, run) refl

search_hdd-same :
    (hash : ℕ → ℕ) (w w' : Host) (dev : ℕ)
    → w'.hddtbl ≡ w.hddtbl
    → ((q : ℕ) → (w'.hdds q).dev_t ≡ (w.hdds q).dev_t)
    → search_hdd hash w' dev ≡ search_hdd hash w dev
search_hdd-same hash w w' dev t d =
    let b = hash dev % iostash_maxhdd_bckts in
    ap (λ f. if dev == 0 then none else find_dev f dev (w'.hddtbl b)) (fun_ext d)
    ∙ ap (λ x. if dev == 0 then none else find_dev (λ q. (w.hdds q).dev_t) dev (x b)) t

-- `hdd_unregister` of a disk in the table, with no request pending and no reference held, whose LUN the
-- engine gives up, ends and leaves the disk in the table, so that the next `hdd_register` of the same device
-- fails.
pub hdd_register-hdd_unregister :
    (hash : ℕ → ℕ) (k : HddProbe) (w : Host) (dev p whole i : ℕ) (r : Ret) (s : Sce)
    → search_hdd hash w dev ≡ some p
    → (w.hdds p).io_pending ≡ 0
    → (w.hdds p).nr_ref ≡ 0
    → (w.hdds p).lun ≡ some i
    → sce_rmlun i w.sce ≡ ok r s
    → k.lookup ≡ some dev
    → (w' : Host) × (hdd_unregister hash (some dev) whole w ≡ some w')
      × (w'.sce ≡ s)
      × (search_hdd hash w' dev ≡ some p)
      × (hdd_register hash k w' ≡ some (false, w'))
unfolding hdd_unregister unload_hdd hdd_register register_hdd alloc_hdd
hdd_register-hdd_unregister hash k w dev p whole i r s found pending refs lun run look =
    let a = unhook hash whole p w in
    let unhooked = Same-unhook hash p w whole in
    let (b, off, kept) =
      Same-put_offline hash p a (unhooked.io_pending ∙ pending) (unhooked.nr_ref ∙ refs) in
    let c = close_hdd hash p b in
    let same = Same-trans p w a c unhooked (Same-trans p a b c kept (Same-close_hdd hash p b)) in
    let d = drop_lun_lem hash p c i r s (same.lun ∙ lun) (ap (sce_rmlun i) same.sce ∙ run) in
    let w' = set_hdd p (record (c.hdds p) { lun = none }) (record c { sce = s }) in
    let dev_t =
      update_all (λ q x. x.dev_t ≡ (c.hdds q).dev_t) c.hdds p (record (c.hdds p) { lun = none })
        refl (λ q. refl) in
    let again : search_hdd hash w' dev ≡ some p =
      search_hdd-same hash w w' dev same.table (λ q. dev_t q ∙ same.dev_t q) ∙ found in
    let refused : alloc_hdd hash k w' ≡ (none, w') = rw (alloc_hdd, look, again) refl in
    (
      w',
      rw (hdd_unregister, found, unload_hdd, off) d,
      refl,
      again,
      rw (hdd_register, refused, register_hdd) refl,
    )
