-- ===== src/Hook/Life/Start.antt =====
-- `_io_worker_run` for a read that has just been taken over.
use iostash.Prelude.{ℕ, Option, ◌≡◌, Bool, true, false, refl, ap, ◌∙◌, some, List, update_self}
use iostash.State.{Sce, Loc}
use iostash.Host.{Host, IostashBio}
use iostash.Hook.{
  put_read, inc_pending, fail_io, Memory, go_to_hdd, run_read, io_worker_run, set_io, finish,
  send_hdd, send_ssd,
}
use iostash.Hook.Life.{
  In, Phase, at_ssd, at_disk_early, ended, flight, to_hdd, to_ssd, books, Follows,
}
use iostash.Hook.Life.Steps.{
  Fits, counted, follows, inc_lem, dec_more, dec_last, finish-In, put_read-ends,
}

-- The phase that a read starts in, by the memory for its clones and whether the SSD is still online.
pub data Start : (clone4ssd online clone4hdd : Bool) → Phase → Type 0 where
  sent : (c : Bool) → Start true true c at_ssd
  early : Start true false true at_disk_early
  no_memory_disk : Start true false false ended
  no_memory_ssd : (o c : Bool) → Start false o c ended

-- A read that has just been taken over.
pub record New (w : Host) (a : ℕ) (b : IostashBio) (ls : List Loc) : Type 0 where
  pub io : w.ios a ≡ some (counted b 0 false)
  pub flight_lem : w.in_flight a ≡ flight 0 0 false
  pub fits : Fits w b ls

-- what the worker starts with, and the reference that it took
abbrev pub one_more : ℕ → IostashBio → Host → Host
one_more a b w = set_io a (counted b 1 false) w

inc_new :
    (w : Host) (a : ℕ) (b : IostashBio)
    → w.ios a ≡ some (counted b 0 false)
    → inc_pending a w ≡ some (one_more a b w)
inc_new w a b h = inc_lem w a b 0 false h

fail_lem :
    (w : Host) (a : ℕ) (b : IostashBio) (n : ℕ) (e : Bool)
    → w.ios a ≡ some (counted b n e)
    → fail_io a w ≡ some (set_io a (counted b n true) w)
fail_lem w a b n e h = rw h refl

-- the host once the clone is at the SSD
abbrev pub sent_host : ℕ → IostashBio → Host → Host
sent_host a b w = one_more a b (send_ssd a (set_io a (counted b 2 false) (one_more a b w)))

pub sent_host-In :
    (w : Host) (a : ℕ) (b : IostashBio)
    → w.in_flight a ≡ flight 0 0 false
    → In (sent_host a b w) a b (books w a b) at_ssd
sent_host-In w a b x = record {
  shape = (
    update_self (set_io a (counted b 2 false) (one_more a b w)).ios a _,
    update_self w.in_flight a _ ∙ ap to_ssd x,
  );
  books_lem = refl;
}

module _ (o : Option ℕ) where
  -- the memory for the clones; `o` is the memory for the structure, which is there already
  abbrev pub clones : Bool → Bool → Memory
  clones s h = record { io = o; clone4ssd = s; clone4hdd = h }

  -- the four ways of `run_read` for a new read
  read_no_ssd :
      (w : Host) (a : ℕ) (b : IostashBio) (c : Bool)
      → w.ios a ≡ some (counted b 1 false)
      → run_read (clones false c) a w ≡ some (set_io a (counted b 1 true) w)
  unfolding run_read
  read_no_ssd w a b c h = rw (run_read, h) (fail_lem w a b 1 false h)

  read_online :
      (w : Host) (a : ℕ) (b : IostashBio) (c : Bool)
      → w.ios a ≡ some (counted b 1 false)
      → (w.ssds b.ssd).online ≡ true
      → run_read (clones true c) a w ≡ some (send_ssd a (set_io a (counted b 2 false) w))
  unfolding run_read
  read_online w a b c h on = rw (run_read, h, on, inc_lem w a b 1 false h) refl

  read_offline :
      (w : Host) (a : ℕ) (b : IostashBio) (c : Bool) (s : Sce)
      → w.ios a ≡ some (counted b 1 false)
      → (w.ssds b.ssd).online ≡ false
      → put_read b.hdd b.psn b.nr_sctr w ≡ some (record w { sce = s })
      → run_read (clones true c) a w ≡ go_to_hdd c a (record w { sce = s })
  unfolding run_read
  read_offline w a b c s h off put = rw (run_read, h, off, put) refl

  go_no_disk :
      (w : Host) (a : ℕ) (b : IostashBio)
      → w.ios a ≡ some (counted b 1 false)
      → go_to_hdd false a w ≡ some (set_io a (counted b 1 true) w)
  unfolding go_to_hdd
  go_no_disk w a b h = fail_lem w a b 1 false h

  go_disk :
      (w : Host) (a : ℕ) (b : IostashBio)
      → w.ios a ≡ some (counted b 1 false)
      → go_to_hdd true a w ≡ some (send_hdd a (set_io a (counted b 2 false) w))
  unfolding go_to_hdd
  go_disk w a b h = rw (go_to_hdd, inc_lem w a b 1 false h) refl

  -- how the worker ends: the structure counts one, and the request is finished, or two, and goes on
  worker_ends :
      (m : Memory) (w w2 : Host) (a : ℕ) (b : IostashBio)
      → w.ios a ≡ some (counted b 0 false)
      → run_read m a (one_more a b w) ≡ some (set_io a (counted b 1 true) w2)
      → w2.in_flight a ≡ flight 0 0 false
      → books w2 a b ≡ books w a b
      → Follows a b (books w a b) (some ended) (io_worker_run m a w)
  unfolding io_worker_run
  worker_ends m w w2 a b h run x y =
      let w3 = set_io a (counted b 1 true) w2 in
      let one = dec_last w3 a b true (update_self w2.ios a (some (counted b 1 true))) in
      follows (io_worker_run m a w) (finish a (counted b 0 true) w3) a b (books w a b) ended
        (rw (io_worker_run, inc_new w a b h, run) one) (finish-In w3 a b (books w a b) 0 true x y)

  worker_goes :
      (m : Memory) (w w2 : Host) (a : ℕ) (b : IostashBio)
      → w.ios a ≡ some (counted b 0 false)
      → run_read m a (one_more a b w) ≡ some w2
      → w2.ios a ≡ some (counted b 2 false)
      → io_worker_run m a w ≡ some (one_more a b w2)
  unfolding io_worker_run
  worker_goes m w w2 a b h run two =
      rw (io_worker_run, inc_new w a b h, run) (dec_more w2 a b 2 false two refl)

  no_memory_ssd-ends :
      (w : Host) (a : ℕ) (b : IostashBio) (c : Bool) (ls : List Loc)
      → New w a b ls
      → Follows a b (books w a b) (some ended) (io_worker_run (clones false c) a w)
  no_memory_ssd-ends w a b c ls n =
      let w1 = one_more a b w in
      worker_ends (clones false c) w w1 a b n.io (read_no_ssd w1 a b c (update_self w.ios a _))
        n.flight_lem refl

  put-New :
      (w : Host) (a : ℕ) (b : IostashBio) (ls : List Loc)
      → New w a b ls
      → (s : Sce) × (put_read b.hdd b.psn b.nr_sctr (one_more a b w)
          ≡ some (record (one_more a b w) { sce = s }))
  put-New w a b ls n =
      let f = n.fits in
      put_read-ends (one_more a b w) b ls (record { inv = f.inv; lun = f.lun; request = f.request })

  no_memory_disk-ends :
      (w : Host) (a : ℕ) (b : IostashBio) (ls : List Loc)
      → New w a b ls
      → (w.ssds b.ssd).online ≡ false
      → Follows a b (books w a b) (some ended) (io_worker_run (clones true false) a w)
  no_memory_disk-ends w a b ls n off =
      let w1 = one_more a b w in
      let (s, put) = put-New w a b ls n in
      let here = update_self w.ios a (some (counted b 1 false)) in
      let run = read_offline w1 a b false s here off put in
      let w2 : Host = record w1 { sce = s } in
      worker_ends (clones true false) w w2 a b n.io (run ∙ go_no_disk w2 a b here) n.flight_lem refl

  early-starts :
      (w : Host) (a : ℕ) (b : IostashBio) (ls : List Loc)
      → New w a b ls
      → (w.ssds b.ssd).online ≡ false
      → Follows a b (books w a b) (some at_disk_early) (io_worker_run (clones true true) a w)
  early-starts w a b ls n off =
      let w1 = one_more a b w in
      let (s, put) = put-New w a b ls n in
      let here = update_self w.ios a (some (counted b 1 false)) in
      let run = read_offline w1 a b true s here off put in
      let w2 : Host = record w1 { sce = s } in
      let w3 = send_hdd a (set_io a (counted b 2 false) w2) in
      follows (io_worker_run (clones true true) a w) (one_more a b w3) a b (books w a b)
        at_disk_early
        (worker_goes (clones true true) w w3 a b n.io (run ∙ go_disk w2 a b here)
          (update_self w1.ios a _))
        (record {
          shape = (update_self w3.ios a _, update_self w.in_flight a _ ∙ ap to_hdd n.flight_lem);
          books_lem = refl;
        })

  pub sent_run :
      (w : Host) (a : ℕ) (b : IostashBio) (c : Bool)
      → w.ios a ≡ some (counted b 0 false)
      → (w.ssds b.ssd).online ≡ true
      → io_worker_run (clones true c) a w ≡ some (sent_host a b w)
  sent_run w a b c h on =
      let w1 = one_more a b w in
      let here = update_self w.ios a (some (counted b 1 false)) in
      worker_goes (clones true c) w (send_ssd a (set_io a (counted b 2 false) w1)) a b h
        (read_online w1 a b c here on) (update_self w1.ios a _)

  sent-starts :
      (w : Host) (a : ℕ) (b : IostashBio) (c : Bool) (ls : List Loc)
      → New w a b ls
      → (w.ssds b.ssd).online ≡ true
      → Follows a b (books w a b) (some at_ssd) (io_worker_run (clones true c) a w)
  sent-starts w a b c ls n on =
      follows (io_worker_run (clones true c) a w) (sent_host a b w) a b (books w a b) at_ssd
        (sent_run w a b c n.io on) (sent_host-In w a b n.flight_lem)

  -- The worker of a read that has just been taken over starts it in the phase that the memory for its
  -- clones and the SSD's state determine: at the SSD, at the disk, or ended. The engine is in the
  -- invariant and knows the LUN, and the read does not wrap.
  pub io_worker_run-Start :
      {p : Phase} {on : Bool} {s h : Bool} (w : Host) (a : ℕ) (b : IostashBio) (ls : List Loc)
      → Start s on h p
      → (w.ssds b.ssd).online ≡ on
      → New w a b ls
      → Follows a b (books w a b) (some p) (io_worker_run (clones s h) a w)
  io_worker_run-Start w a b ls (sent c) o n = sent-starts w a b c ls n o
  io_worker_run-Start w a b ls early o n = early-starts w a b ls n o
  io_worker_run-Start w a b ls no_memory_disk o n = no_memory_disk-ends w a b ls n o
  io_worker_run-Start w a b ls (no_memory_ssd x c) o n = no_memory_ssd-ends w a b c ls n
