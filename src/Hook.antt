-- ===== src/Hook.antt =====
-- iostash_iohook.c, without asynchronous write-through, on kernels from 4.4 on: the way of a request
-- through the module. The disk's own `make_request_fn` and the SSD are outside: a clone that is handed
-- to them is in flight until its end function is called.
pub mod Branches
pub mod Life
use iostash.Prelude.{
  ℕ, ◌+◌, ◌-◌, ◌*◌, ◌/◌, ◌%◌, ◌^◌, ◌==◌, if◌then◌else◌, ltb, leb, Bool, true, false, not, ◌&&◌,
  ◌||◌, Option, none, some, update,
}
use iostash.Word.{sce_sctrperfrag, u32_add, u32_sub}
use iostash.State.{Sce, Ret, success, error}
use iostash.Util.{Fmap}
use iostash.Interface.Io.{sce_get4read, sce_put4read, sce_invalidate}
use iostash.Host.{Host, SsdInfo, HddInfo, IostashBio, InFlight, ◌>>=◌, call, set_ssd, set_hdd}
use iostash.Host.Table.{search_hdd}

-- What the code reads of a `struct bio`: direction, device, sector, sectors, start of the partition.
pub record Bio : Type 0 where
  pub write : Bool
  pub dev : ℕ
  pub sector : ℕ
  pub nr_sctr : ℕ
  pub start_sect : ℕ

-- Where a request goes: refused with -EAGAIN, on to the disk, or taken over by the module.
pub data Route : Type 0 where
  again passed taken : Route

-- What memory the kernel gives: the `iostash_bio`, the clone for the SSD, and the one for the disk.
pub record Memory : Type 0 where
  pub io : Option ℕ
  pub clone4ssd : Bool
  pub clone4hdd : Bool

-- references to a disk and to an SSD
abbrev pub get_hdd : ℕ → Host → Host
get_hdd p w = set_hdd p (record (w.hdds p) { nr_ref = u32_add (w.hdds p).nr_ref 1 }) w

abbrev pub put_hdd : ℕ → Host → Host
put_hdd p w = set_hdd p (record (w.hdds p) { nr_ref = u32_sub (w.hdds p).nr_ref 1 }) w

abbrev pub get_ssd : ℕ → Host → Host
get_ssd p w = set_ssd p (record (w.ssds p) { nr_ref = u32_add (w.ssds p).nr_ref 1 }) w

abbrev pub put_ssd : ℕ → Host → Host
put_ssd p w = set_ssd p (record (w.ssds p) { nr_ref = u32_sub (w.ssds p).nr_ref 1 }) w

abbrev pub set_io : ℕ → IostashBio → Host → Host
set_io a io w = record w { ios = update w.ios a (some io) }

abbrev pub set_flight : ℕ → InFlight → Host → Host
set_flight a x w = record w { in_flight = update w.in_flight a x }

-- `io->…`; none if the structure has been freed.
abbrev pub load_io : ℕ → Host → Option IostashBio
load_io a w = w.ios a

-- `_io_alloc`, with the address of the memory.
abbrev pub io_alloc : (a hdd ssd fragnum psn : ℕ) → Bio → Host → Host
io_alloc a hdd ssd fragnum psn bio w =
    let w1 =
      set_hdd hdd (record (w.hdds hdd) { io_pending = u32_add (w.hdds hdd).io_pending 1 }) w in
    set_io a
      (record {
        hdd = hdd;
        ssd = ssd;
        is_read = not bio.write;
        fragnum = fragnum;
        nr_sctr = bio.nr_sctr;
        psn = psn;
        io_pending = 0;
        error = false;
      })
      w1

-- `_inc_pending`
unfoldable pub inc_pending : ℕ → Host → Option Host
inc_pending a w = do
  io ← load_io a w
  some (set_io a (record io { io_pending = u32_add io.io_pending 1 }) w)

-- The end of a request: the structure is freed and the base bio ends. The error is not handed over.
abbrev pub finish : ℕ → IostashBio → Host → Host
finish a io w =
    let w1 = record w {
      ios = update w.ios a none;
      ended = update w.ended a (u32_add (w.ended a) 1);
    } in
    let h = w1.hdds io.hdd in
    let w2 = set_hdd io.hdd (record h { io_pending = u32_sub h.io_pending 1 }) w1 in
    put_ssd io.ssd w2

-- `_dec_pending`
unfoldable pub dec_pending : ℕ → Host → Option Host
dec_pending a w = do
  io ← load_io a w
  let io' : IostashBio = record io { io_pending = u32_sub io.io_pending 1 }
  some (if io'.io_pending == 0 then finish a io' w else set_io a io' w)

-- `sce_put4read(hdd->lun, io->psn, io->nr_sctr)`
abbrev pub put_read : (hdd psn nr_sctr : ℕ) → Host → Option Host
put_read hdd psn nr_sctr w = elim (w.hdds hdd).lun [
  | none ↦ some w
  | some i ↦ do (_, w1) ← call (sce_put4read i psn nr_sctr) w; some w1
]

-- the clones in flight
abbrev pub send_ssd : ℕ → Host → Host
send_ssd a w = set_flight a (record (w.in_flight a) { at_ssd = (w.in_flight a).at_ssd + 1 }) w

abbrev pub send_hdd : ℕ → Host → Host
send_hdd a w = set_flight a (record (w.in_flight a) { at_hdd = (w.in_flight a).at_hdd + 1 }) w

abbrev pub fail_io : ℕ → Host → Option Host
fail_io a w = do io ← load_io a w; some (set_io a (record io { error = true }) w)

-- The part of `_io_worker_run` that hands a clone to the disk.
unfoldable pub go_to_hdd : (clone4hdd : Bool) → ℕ → Host → Option Host
go_to_hdd false a w = fail_io a w
go_to_hdd true a w = do w1 ← inc_pending a w; some (send_hdd a w1)

-- The loop body of `_io_worker_run` for a read.
unfoldable pub run_read : Memory → ℕ → Host → Option Host
run_read m a w = do
  io ← load_io a w
  elim (io.error) [
    | true ↦ go_to_hdd m.clone4hdd a w
    | false ↦ elim (m.clone4ssd) [
      | false ↦ fail_io a w
      | true ↦ elim (w.ssds io.ssd).online [
        | true ↦ do w1 ← inc_pending a w; some (send_ssd a w1)
        | false ↦ do w1 ← put_read io.hdd io.psn io.nr_sctr w; go_to_hdd m.clone4hdd a w1
      ]
    ]
  ]

-- `_io_worker_run` of a read; the module takes over no writes.
unfoldable pub io_worker_run : Memory → ℕ → Host → Option Host
io_worker_run m a w = do w1 ← inc_pending a w; w2 ← run_read m a w1; dec_pending a w2

-- `_io_queue`
abbrev pub io_queue : ℕ → Host → Host
io_queue a w = set_flight a (record (w.in_flight a) { queued = true }) w

-- `_endio4read` of a clone that comes back from the SSD, and from the disk.
unfoldable pub endio_ssd : (err : Bool) → ℕ → Host → Option Host
endio_ssd err a w = do
  io ← load_io a w
  let w1 = set_io a (record io { error = err }) w
  w2 ← elim err as (λ x. Option Host) [
    | true ↦ do
      w2 ← inc_pending a (set_ssd io.ssd (record (w1.ssds io.ssd) { online = false }) w1)
      some (io_queue a w2)
    | false ↦ do
      w2 ← put_read io.hdd io.psn io.nr_sctr w1
      some (record w2 { st_cread = u32_add w2.st_cread 1 })
  ]
  dec_pending a w2

unfoldable pub endio_hdd : (err : Bool) → ℕ → Host → Option Host
endio_hdd err a w = do
  io ← load_io a w
  w1 ← dec_pending a (set_io a (record io { error = err }) w)
  dec_pending a w1

-- The test of `iostash_mkrequest` for the bounds of the disk, in 64 bits.
abbrev pub off_limits : HddInfo → (psn nr_sctr : ℕ) → Bool
off_limits h psn nr_sctr = ltb psn h.part_start || ltb h.part_end ((psn + nr_sctr) % 2 ^ 64)

abbrev pub one_fragment : (psn nr_sctr : ℕ) → Bool
one_fragment psn nr_sctr = (psn + nr_sctr - 1) % 2 ^ 64 / sce_sctrperfrag == psn / sce_sctrperfrag

-- The end of `iostash_mkrequest` at its label `out`.
abbrev pub pass_on : ℕ → Host → Option (Route × Host)
pass_on p w = some (passed, put_hdd p w)

-- A read that the engine serves, from the SSD with the address `q`.
unfoldable pub serve : Memory → (p q fragnum psn : ℕ) → Bio → Host → Option (Route × Host)
serve m p q fragnum psn bio w =
    let w1 = get_ssd q w in
    if not (w1.ssds q).online || ltb (w1.ssds q).queue_max_hw_sectors bio.nr_sctr
    then (do w2 ← put_read p psn bio.nr_sctr w1; pass_on p (put_ssd q w2))
    else elim (m.io) [
      | none ↦ pass_on p (put_ssd q w1)
      | some a ↦ do
        w2 ← io_worker_run m a (io_alloc a p q fragnum psn bio w1)
        some (taken, put_hdd p w2)
    ]

-- `iostash_mkrequest` for a read within the disk.
unfoldable pub mkrequest_read : Memory → (p psn : ℕ) → Bio → Host → Option (Route × Host)
mkrequest_read m p psn bio w =
    let w1 = record w { st_read = u32_add w.st_read 1 } in
    if not (one_fragment psn bio.nr_sctr) then pass_on p w1 else elim (w1.hdds p).lun [
      | none ↦ pass_on p w1
      | some i ↦ do
        ((ret, out), w2) ← call (sce_get4read i psn bio.nr_sctr) w1
        elim ret [
          | error ↦ pass_on p w2
          | success ↦ elim out [
            | none ↦ none
            | some fmap ↦
                if fmap.cdevctx == 0 then none else serve m p fmap.cdevctx fmap.fragnum psn bio w2
          ]
        ]
    ]

-- The same for a write.
unfoldable pub mkrequest_write : (p psn : ℕ) → Bio → Host → Option (Route × Host)
mkrequest_write p psn bio w =
    let w1 = record w { st_write = u32_add w.st_write 1 } in
    elim (w1.hdds p).lun [
      | none ↦ pass_on p w1
      | some i ↦ do (_, w2) ← call (sce_invalidate i psn bio.nr_sctr) w1; pass_on p w2
    ]

-- `iostash_mkrequest`
unfoldable pub iostash_mkrequest : (hash : ℕ → ℕ) → Memory → Bio → Host → Option (Route × Host)
iostash_mkrequest hash m bio w = elim (search_hdd hash w bio.dev) [
  | none ↦ some (again, w)
  | some p ↦
      let w1 = get_hdd p w in
      let psn = (bio.sector + bio.start_sect) % 2 ^ 64 in
      if not (w1.hdds p).online
      then pass_on p w1
      else if bio.nr_sctr == 0 || off_limits (w1.hdds p) psn bio.nr_sctr
      then pass_on p w1
      else if bio.write
      then mkrequest_write p psn bio w1
      else mkrequest_read m p psn bio w1
]
