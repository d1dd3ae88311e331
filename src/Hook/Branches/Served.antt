-- ===== src/Hook/Branches/Served.antt =====
-- A read that the SSD serves, from the hit in the engine to the end of its bio.
use mathlib.Core.Path.{subst}
use iostash.Prelude.{
  ℕ, ◌+◌, ◌^◌, ◌<◌, ◌≡◌, true, false, not, Bool, arith, refl, ap, ◌∙◌, sym, Option, none, some,
  List, ltb, update_self,
}
use iostash.Word.{sce_maxlun, u32_add}
use iostash.State.{Loc}
use iostash.Invariant.{Inv}
use iostash.Interface.Io.Pages.{Request}
use iostash.Host.{Host, HddInfo, SsdInfo, IostashBio}
use iostash.Hook.{Bio, Route, taken, get_ssd, put_hdd, io_alloc, serve, io_worker_run}
use iostash.Hook.Life.{Books, books, In, flight, at_ssd, ended, Follows, Event}
use iostash.Hook.Life.Runs.{Runs, run_events, run_events-Follows}
use iostash.Hook.Life.Steps.{Fits, books_equal}
use iostash.Hook.Life.Start.{clones, sent_host, sent_host-In, sent_run}

module _ (p q fragnum psn : ℕ) (bio : Bio) where
  -- the structure that `_io_alloc` fills
  abbrev pub new_io : IostashBio
  new_io = record {
    hdd = p;
    ssd = q;
    is_read = not bio.write;
    fragnum = fragnum;
    nr_sctr = bio.nr_sctr;
    psn = psn;
    io_pending = 0;
    error = false;
  }

  -- the host that the worker starts with
  abbrev allocated : ℕ → Host → Host
  allocated a w = io_alloc a p q fragnum psn bio (get_ssd q w)

  -- The SSD is online and takes requests of this size.
  pub record Able (w : Host) : Type 0 where
    pub online : (w.ssds q).online ≡ true
    pub size : ltb (w.ssds q).queue_max_hw_sectors bio.nr_sctr ≡ false

  module _ (a : ℕ) (c : Bool) (w : Host) (able : Able w) where
    got : ((get_ssd q w).ssds q) ≡ record (w.ssds q) { nr_ref = u32_add (w.ssds q).nr_ref 1 }
    got = update_self w.ssds q _

    serve_goes :
        (x : Host) (r : Option (Route × Host))
        → io_worker_run (clones (some a) true c) a (allocated a w) ≡ some x
        → some (taken, put_hdd p x) ≡ r
        → serve (clones (some a) true c) p q fragnum psn bio w ≡ r
    unfolding serve
    serve_goes x r run e =
        rw
          (
            serve,
            ap SsdInfo.online got ∙ able.online,
            ap SsdInfo.queue_max_hw_sectors got,
            able.size,
            run,
          )
          e

    serve_run :
        serve (clones (some a) true c) p q fragnum psn bio w
        ≡ some (taken, put_hdd p (sent_host a new_io (allocated a w)))
    serve_run =
        serve_goes (sent_host a new_io (allocated a w)) _
          (sent_run (some a) (allocated a w) a new_io c (update_self w.ios a _)
            (ap SsdInfo.online got ∙ able.online))
          refl

  -- the books once the structure is allocated
  abbrev pub opened : ℕ → Host → Books
  opened a w = record {
    bios_ended = w.ended a;
    io_pending = u32_add (w.hdds p).io_pending 1;
    nr_ref = u32_add (w.ssds q).nr_ref 1;
  }

  opened_lem : (a : ℕ) (w : Host) → books (allocated a w) a new_io ≡ opened a w
  opened_lem a w =
      books_equal refl (ap HddInfo.io_pending (update_self w.hdds p _))
        (ap SsdInfo.nr_ref (update_self w.ssds q _))

  In-put_hdd :
      (a : ℕ) (w : Host) (k : Books) → In w a new_io k at_ssd → In (put_hdd p w) a new_io k at_ssd
  In-put_hdd a w k i = record {
    shape = i.shape;
    books_lem =
        books_equal refl (ap HddInfo.io_pending (update_self w.hdds p _)) refl ∙ i.books_lem;
  }

  abbrev taken_host : ℕ → Host → Host
  taken_host a w = put_hdd p (sent_host a new_io (allocated a w))

  taken_host-lun : (a : ℕ) (w : Host) → ((taken_host a w).hdds p).lun ≡ (w.hdds p).lun
  taken_host-lun a w =
      ap HddInfo.lun (update_self (allocated a w).hdds p _)
      ∙ ap HddInfo.lun (update_self w.hdds p _)

  -- The structure is freed, the bio has ended once more, and the counts are those of `w`.
  pub record Settled (a : ℕ) (w w'' : Host) : Type 0 where
    pub freed : w''.ios a ≡ none
    pub bios_ended : w''.ended a ≡ u32_add (w.ended a) 1
    pub io_pending : (w''.hdds p).io_pending ≡ (w.hdds p).io_pending
    pub nr_ref : (w''.ssds q).nr_ref ≡ (w.ssds q).nr_ref

  -- A read that the engine has served, on an SSD that is online and takes its size, is taken over with its
  -- clone at the SSD. After any events with which the machine of phases ends it, the SSD's answer or its
  -- error with the retry at the disk, its bio has ended once more, and the counts of the disk's
  -- requests and of the SSD's references are those from before. The engine is in the invariant and knows
  -- the disk's LUN, the read does not wrap, there is memory, and the counts are below their limits.
  pub serve-run_events :
      (a : ℕ) (c : Bool) (w : Host) (ls : List Loc) (es : List Event)
      → Able w
      → w.in_flight a ≡ flight 0 0 false
      → Inv w.sce ls
      → ((i : ℕ) → (w.hdds p).lun ≡ some i → i < sce_maxlun)
      → Request psn bio.nr_sctr
      → ((w.hdds p).io_pending + 1 < 2 ^ 32) × ((w.ssds q).nr_ref + 1 < 2 ^ 32)
      → Runs at_ssd es (some ended)
      → (w' : Host) × (w'' : Host) × (serve (clones (some a) true c) p q fragnum psn bio w
          ≡ some (taken, w'))
        × In w' a new_io (opened a w) at_ssd
        × (run_events a es w' ≡ some w'')
        × Settled a w w''
  serve-run_events a c w ls es able idle v hi r (small, small') ends =
      let w' = taken_host a w in
      let i0 = sent_host-In (allocated a w) a new_io idle in
      let i1 =
        subst (λ k. In (sent_host a new_io (allocated a w)) a new_io k at_ssd) (opened_lem a w)
          i0 in
      let i = In-put_hdd a (sent_host a new_io (allocated a w)) (opened a w) i1 in
      let fits : Fits w' new_io ls = record {
        inv = v;
        lun = λ j e. hi j (sym (taken_host-lun a w) ∙ e);
        request = r;
      } in
      let (w'', run, e) =
        followed (run_events-Follows a new_io (opened a w) ends w' (ls, fits) i) in
      (
        w',
        w'',
        serve_run a c w able,
        i,
        run,
        record {
          freed = e.shape.0;
          bios_ended = ap Books.bios_ended e.books_lem;
          io_pending = ap Books.io_pending e.books_lem ∙ omega (arith, small);
          nr_ref = ap Books.nr_ref e.books_lem ∙ omega (arith, small');
        },
      )
    where
      followed :
          {o : Option Host}
          → Follows a new_io (opened a w) (some ended) o
          → (x : Host) × (o ≡ some x) × In x a new_io (opened a w) ended
      followed {o = none} f = absurd f
      followed {o = some x} f = (x, refl, f)
