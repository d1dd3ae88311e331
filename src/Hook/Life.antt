-- ===== src/Hook/Life.antt =====
-- The life of a read that the module has taken over: its reference count and what it has in flight,
-- against a machine of phases.
pub mod Steps
pub mod Start
pub mod Runs
use mathlib.Core.Path.{subst}
use iostash.Prelude.{
  ℕ, ◌+◌, ◌-◌, ◌*◌, ◌%◌, ◌^◌, ◌<◌, ◌≡◌, ◌==◌, if◌then◌else◌, Bool, true, false, not, arith, refl,
  ap, ◌∙◌, sym, Option, some, none, List, [], ◌∷◌, update, update_self,
}
use iostash.Word.{sce_maxlun, u32_add, u32_sub}
use iostash.State.{Sce, Ret, Run, ok, Loc}
use iostash.Invariant.{Inv}
use iostash.Interface.Io.{sce_put4read}
use iostash.Interface.Io.Pages.{Request}
use iostash.Interface.Io.Done.{sce_put4read-Ends}
use iostash.Host.{
  Host, SsdInfo, HddInfo, IostashBio, InFlight, ◌>>=◌, call, of_run, set_ssd, set_hdd,
}
use iostash.Hook.{
  Memory, inc_pending, dec_pending, put_read, go_to_hdd, run_read, io_worker_run, endio_ssd,
  endio_hdd, set_io, set_flight, finish,
}

-- At the SSD; back in the work queue after an error of the SSD; at the disk after that; at the disk
-- because the SSD was offline at once; held by nothing that is in flight; ended.
pub data Phase : Type 0 where
  at_ssd retrying at_disk at_disk_early stuck ended : Phase

-- The SSD's answer, the run of the queued work with or without memory for a clone, the disk's answer.
pub data Event : Type 0 where
  ssd_back : (err : Bool) → Event
  work : (clone4hdd : Bool) → Event
  disk_back : (err : Bool) → Event

-- The machine; none is a use of freed memory, and an event that cannot happen leaves the phase.
pub data Move : Phase → Event → Option Phase → Type 0 where
  served : Move at_ssd (ssd_back false) (some ended)
  failed : Move at_ssd (ssd_back true) (some retrying)
  retried : Move retrying (work true) (some at_disk)
  no_memory : Move retrying (work false) (some stuck)
  answered : (err : Bool) → Move at_disk (disk_back err) (some ended)
  freed_twice : (err : Bool) → Move at_disk_early (disk_back err) none

abbrev pub flight : ℕ → ℕ → Bool → InFlight
flight s h q = record { at_ssd = s; at_hdd = h; queued = q }

abbrev pub no_ssd : InFlight → InFlight
no_ssd x = record x { at_ssd = x.at_ssd - 1 }

abbrev pub to_ssd : InFlight → InFlight
to_ssd x = record x { at_ssd = x.at_ssd + 1 }

abbrev pub no_hdd : InFlight → InFlight
no_hdd x = record x { at_hdd = x.at_hdd - 1 }

abbrev pub to_hdd : InFlight → InFlight
to_hdd x = record x { at_hdd = x.at_hdd + 1 }

abbrev pub to_queue : InFlight → InFlight
to_queue x = record x { queued = true }

abbrev pub no_queue : InFlight → InFlight
no_queue x = record x { queued = false }

-- What the module keeps of the request with the address `a`: the structure, and what is in flight.
abbrev pub Shape : IostashBio → Phase → Option IostashBio → InFlight → Type 0
Shape b at_ssd io x =
    (io ≡ some (record b { io_pending = 1; error = false })) × (x ≡ flight 1 0 false)
Shape b retrying io x =
    (io ≡ some (record b { io_pending = 1; error = true })) × (x ≡ flight 0 0 true)
Shape b at_disk io x =
    (io ≡ some (record b { io_pending = 2; error = true })) × (x ≡ flight 0 1 false)
Shape b at_disk_early io x =
    (io ≡ some (record b { io_pending = 1; error = false })) × (x ≡ flight 0 1 false)
Shape b stuck io x =
    (io ≡ some (record b { io_pending = 1; error = true })) × (x ≡ flight 0 0 false)
Shape b ended io x = (io ≡ none) × (x ≡ flight 0 0 false)

-- The books of a request: how often its base bio has ended, the disk's requests and the SSD's references.
pub record Books : Type 0 where
  pub bios_ended : ℕ
  pub io_pending : ℕ
  pub nr_ref : ℕ

-- Closed when the request ends: one bio more, one request and one reference less.
abbrev pub closed : Books → Books
closed k = record {
  bios_ended = u32_add k.bios_ended 1;
  io_pending = u32_sub k.io_pending 1;
  nr_ref = u32_sub k.nr_ref 1;
}

abbrev pub books : Host → ℕ → IostashBio → Books
books w a b = record {
  bios_ended = w.ended a;
  io_pending = (w.hdds b.hdd).io_pending;
  nr_ref = (w.ssds b.ssd).nr_ref;
}

abbrev pub after : Phase → Books → Books
after ended k = closed k
after p k = k

pub record In (w : Host) (a : ℕ) (b : IostashBio) (k : Books) (p : Phase) : Type 0 where
  pub shape : Shape b p (w.ios a) (w.in_flight a)
  pub books_lem : books w a b ≡ after p k

-- An event takes its clone, or the queued work, out of flight and runs the code for it.
abbrev pub handle : Event → ℕ → Host → Option Host
handle (ssd_back err) a w =
    endio_ssd err a
      (set_flight a (record (w.in_flight a) { at_ssd = (w.in_flight a).at_ssd - 1 }) w)
handle (work c) a w =
    io_worker_run (record { io = none; clone4ssd = true; clone4hdd = c }) a
      (set_flight a (record (w.in_flight a) { queued = false }) w)
handle (disk_back err) a w =
    endio_hdd err a
      (set_flight a (record (w.in_flight a) { at_hdd = (w.in_flight a).at_hdd - 1 }) w)

-- How the code ends, against the machine's move.
abbrev pub Follows : ℕ → IostashBio → Books → Option Phase → Option Host → Type 0
Follows a b k none (some w) = ⊥
Follows a b k none none = Unit {0}
Follows a b k (some p) (some w) = In w a b k p
Follows a b k (some p) none = ⊥
