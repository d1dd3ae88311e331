-- ===== src/Hook/Life/Steps.antt =====
-- One event in the life of a read: what the code does in each phase.
use mathlib.Core.Path.{subst}
use iostash.Prelude.{
  ℕ, ◌+◌, ◌-◌, ◌<◌, ◌≡◌, ◌==◌, Bool, true, false, refl, ap, ◌∙◌, sym, Option, some, none, List,
  update_self,
}
use iostash.Word.{sce_maxlun, u32_add, u32_sub}
use iostash.State.{Sce, Loc}
use iostash.Invariant.{Inv}
use iostash.Interface.Io.Pages.{Request}
use iostash.Interface.Io.Done.{sce_put4read-Ends}
use iostash.Host.{Host, SsdInfo, HddInfo, IostashBio, set_ssd}
use iostash.Hook.{
  inc_pending, dec_pending, put_read, go_to_hdd, run_read, io_worker_run, endio_ssd, endio_hdd,
  set_io, set_flight, finish,
}
use iostash.Hook.Life.{
  Phase, at_ssd, retrying, at_disk, at_disk_early, stuck, ended, ssd_back, work, disk_back, flight,
  no_ssd, no_hdd, to_hdd, to_queue, no_queue, Books, books, In, handle, Follows,
}

pub follows :
    (o : Option Host) (w : Host) (a : ℕ) (b : IostashBio) (k : Books) (p : Phase)
    → o ≡ some w
    → In w a b k p
    → Follows a b k (some p) o
follows o w a b k p run i = subst (λ x. Follows a b k (some p) x) (sym run) i

-- the structure with another count and error
abbrev pub counted : IostashBio → ℕ → Bool → IostashBio
counted b n e = record b { io_pending = n; error = e }

pub inc_lem :
    (w : Host) (a : ℕ) (b : IostashBio) (n : ℕ) (e : Bool)
    → w.ios a ≡ some (counted b n e)
    → inc_pending a w ≡ some (set_io a (counted b (u32_add n 1) e) w)
unfolding inc_pending
inc_lem w a b n e h = rw (h, inc_pending) refl

pub dec_more :
    (w : Host) (a : ℕ) (b : IostashBio) (n : ℕ) (e : Bool)
    → w.ios a ≡ some (counted b n e)
    → (u32_sub n 1 == 0) ≡ false
    → dec_pending a w ≡ some (set_io a (counted b (u32_sub n 1) e) w)
unfolding dec_pending
dec_more w a b n e h q = rw (h, q, dec_pending) refl

pub dec_last :
    (w : Host) (a : ℕ) (b : IostashBio) (e : Bool)
    → w.ios a ≡ some (counted b 1 e)
    → dec_pending a w ≡ some (finish a (counted b 0 e) w)
unfolding dec_pending
dec_last w a b e h = rw (h, dec_pending) refl

dec_freed : (w : Host) (a : ℕ) → w.ios a ≡ none → dec_pending a w ≡ none
unfolding dec_pending
dec_freed w a h = rw (h, dec_pending) refl

pub books_equal :
    {x x' y y' z z' : ℕ}
    → x ≡ x'
    → y ≡ y'
    → z ≡ z'
    → ◌≡◌ {A = Books}
        (record { bios_ended = x; io_pending = y; nr_ref = z })
        (record { bios_ended = x'; io_pending = y'; nr_ref = z' })
books_equal p q r = rw (p, q, r) refl

pub finish-In :
    (w : Host) (a : ℕ) (b : IostashBio) (k : Books) (n : ℕ) (e : Bool)
    → w.in_flight a ≡ flight 0 0 false
    → books w a b ≡ k
    → In (finish a (counted b n e) w) a b k ended
finish-In w a b k n e x y = record {
  shape = (update_self w.ios a none, x);
  books_lem =
      books_equal
        (update_self w.ended a (u32_add (w.ended a) 1) ∙ ap (λ x. u32_add x.bios_ended 1) y)
        (ap HddInfo.io_pending (update_self w.hdds b.hdd _) ∙ ap (λ x. u32_sub x.io_pending 1) y)
        (ap SsdInfo.nr_ref (update_self w.ssds b.ssd _) ∙ ap (λ x. u32_sub x.nr_ref 1) y);
}

-- A disk's answer after an SSD error ends the request.
pub at_disk-answered :
    (w : Host) (a : ℕ) (b : IostashBio) (k : Books) (err : Bool)
    → In w a b k at_disk
    → Follows a b k (some ended) (handle (disk_back err) a w)
unfolding endio_hdd
at_disk-answered w a b k err i =
    let w1 = set_flight a (record (w.in_flight a) { at_hdd = (w.in_flight a).at_hdd - 1 }) w in
    let w2 = set_io a (counted b 2 err) w1 in
    let w3 = set_io a (counted b 1 err) w2 in
    let one = dec_more w2 a b 2 err (update_self w1.ios a (some (counted b 2 err))) refl in
    let two = dec_last w3 a b err (update_self w2.ios a (some (counted b 1 err))) in
    follows (handle (disk_back err) a w) (finish a (counted b 0 err) w3) a b k ended
      (rw (i.shape.0, endio_hdd, one) two)
      (finish-In w3 a b k 0 err (update_self w.in_flight a _ ∙ ap no_hdd i.shape.1) i.books_lem)

-- The end of a disk request of a read that was sent there at once: the structure is freed, then read.
pub at_disk_early-freed :
    (w : Host) (a : ℕ) (b : IostashBio) (k : Books) (err : Bool)
    → In w a b k at_disk_early
    → handle (disk_back err) a w ≡ none
unfolding endio_hdd
at_disk_early-freed w a b k err i =
    let w1 = set_flight a (record (w.in_flight a) { at_hdd = (w.in_flight a).at_hdd - 1 }) w in
    let w2 = set_io a (counted b 1 err) w1 in
    let one = dec_last w2 a b err (update_self w1.ios a (some (counted b 1 err))) in
    let gone = update_self w2.ios a none in
    rw (i.shape.0, endio_hdd, one) (dec_freed (finish a (counted b 0 err) w2) a gone)

pub at_ssd-failed :
    (w : Host) (a : ℕ) (b : IostashBio) (k : Books)
    → In w a b k at_ssd
    → Follows a b k (some retrying) (handle (ssd_back true) a w)
unfolding endio_ssd
at_ssd-failed w a b k i =
    let w1 = set_flight a (record (w.in_flight a) { at_ssd = (w.in_flight a).at_ssd - 1 }) w in
    let w2 = set_io a (counted b 1 true) w1 in
    let w3 = set_ssd b.ssd (record (w2.ssds b.ssd) { online = false }) w2 in
    let w4 = set_io a (counted b 2 true) w3 in
    let w5 = set_flight a (record (w4.in_flight a) { queued = true }) w4 in
    let w6 = set_io a (counted b 1 true) w5 in
    let one = inc_lem w3 a b 1 true (update_self w1.ios a (some (counted b 1 true))) in
    let two = dec_more w5 a b 2 true (update_self w3.ios a (some (counted b 2 true))) refl in
    follows (handle (ssd_back true) a w) w6 a b k retrying (rw (i.shape.0, endio_ssd, one) two)
      (record {
        shape = (
          update_self w5.ios a _,
          update_self w4.in_flight a _
              ∙ ap to_queue (update_self w.in_flight a _ ∙ ap no_ssd i.shape.1),
        );
        books_lem =
            books_equal refl refl (ap SsdInfo.nr_ref (update_self w2.ssds b.ssd _)) ∙ i.books_lem;
      })

pub retrying-retried :
    (w : Host) (a : ℕ) (b : IostashBio) (k : Books)
    → In w a b k retrying
    → Follows a b k (some at_disk) (handle (work true) a w)
unfolding io_worker_run run_read go_to_hdd
retrying-retried w a b k i =
    let w1 = set_flight a (record (w.in_flight a) { queued = false }) w in
    let w2 = set_io a (counted b 2 true) w1 in
    let w3 = set_io a (counted b 3 true) w2 in
    let w4 = set_flight a (record (w3.in_flight a) { at_hdd = (w3.in_flight a).at_hdd + 1 }) w3 in
    let w5 = set_io a (counted b 2 true) w4 in
    let one = inc_lem w1 a b 1 true i.shape.0 in
    let here = update_self w1.ios a (some (counted b 2 true)) in
    let two = inc_lem w2 a b 2 true here in
    let three = dec_more w4 a b 3 true (update_self w2.ios a (some (counted b 3 true))) refl in
    follows (handle (work true) a w) w5 a b k at_disk
      (rw (io_worker_run, one, run_read, here, go_to_hdd, two) three)
      (record {
        shape = (
          update_self w4.ios a _,
          update_self w3.in_flight a _
              ∙ ap to_hdd (update_self w.in_flight a _ ∙ ap no_queue i.shape.1),
        );
        books_lem = i.books_lem;
      })

pub retrying-stuck :
    (w : Host) (a : ℕ) (b : IostashBio) (k : Books)
    → In w a b k retrying
    → Follows a b k (some stuck) (handle (work false) a w)
unfolding io_worker_run run_read go_to_hdd
retrying-stuck w a b k i =
    let w1 = set_flight a (record (w.in_flight a) { queued = false }) w in
    let w2 = set_io a (counted b 2 true) w1 in
    let w3 = set_io a (counted b 2 true) w2 in
    let w4 = set_io a (counted b 1 true) w3 in
    let one = inc_lem w1 a b 1 true i.shape.0 in
    let here = update_self w1.ios a (some (counted b 2 true)) in
    let two = dec_more w3 a b 2 true (update_self w2.ios a (some (counted b 2 true))) refl in
    follows (handle (work false) a w) w4 a b k stuck
      (rw (io_worker_run, one, run_read, here, go_to_hdd, here) two)
      (record {
        shape = (update_self w3.ios a _, update_self w.in_flight a _ ∙ ap no_queue i.shape.1);
        books_lem = i.books_lem;
      })

-- A read of the module that the engine serves: its LUN is one of the engine, and it does not wrap.
pub record Fits (w : Host) (b : IostashBio) (ls : List Loc) : Type 0 where
  pub inv : Inv w.sce ls
  pub lun : (i : ℕ) → (w.hdds b.hdd).lun ≡ some i → i < sce_maxlun
  pub request : Request b.psn b.nr_sctr

pub put_read-ends :
    (w : Host) (b : IostashBio) (ls : List Loc)
    → Fits w b ls
    → (s : Sce) × (put_read b.hdd b.psn b.nr_sctr w ≡ some (record w { sce = s }))
put_read-ends w b ls f =
    elim ((w.hdds b.hdd).lun)
        as (λ o.
          (w.hdds b.hdd).lun ≡ o
          → (s : Sce) × (put_read b.hdd b.psn b.nr_sctr w ≡ some (record w { sce = s }))) [
            | none ↦ λ e. (w.sce, rw (put_read, e) refl)
            | some i ↦ λ e.
                let (ret, s, run, _) =
                  sce_put4read-Ends w.sce ls i b.psn b.nr_sctr f.inv (f.lun i e) f.request in
                (s, rw (put_read, e, run) refl)
          ]
      refl

pub at_ssd-served :
    (w : Host) (a : ℕ) (b : IostashBio) (k : Books) (ls : List Loc)
    → Fits w b ls
    → In w a b k at_ssd
    → Follows a b k (some ended) (handle (ssd_back false) a w)
unfolding endio_ssd
at_ssd-served w a b k ls f i =
    let w1 = set_flight a (record (w.in_flight a) { at_ssd = (w.in_flight a).at_ssd - 1 }) w in
    let w2 = set_io a (counted b 1 false) w1 in
    let (s, put) =
      put_read-ends w2 b ls (record { inv = f.inv; lun = f.lun; request = f.request }) in
    let w3 : Host = record w2 { sce = s; st_cread = u32_add w2.st_cread 1 } in
    let one = dec_last w3 a b false (update_self w1.ios a (some (counted b 1 false))) in
    follows (handle (ssd_back false) a w) (finish a (counted b 0 false) w3) a b k ended
      (rw (i.shape.0, endio_ssd, put) one)
      (finish-In w3 a b k 0 false (update_self w.in_flight a _ ∙ ap no_ssd i.shape.1) i.books_lem)
