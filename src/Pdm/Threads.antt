-- ===== src/Pdm/Threads.antt =====
-- pdm.c: the population daemon's threads are started and stopped.
use iostash.Prelude.{
  ◌≡◌, refl, arith, Bool, true, false, not, ◌||◌, ap, Option, none, some, List, [], ◌∷◌, map,
  if◌then◌else◌,
}

-- `tctx->thread`: NULL, an error's number, or a thread; `kthread_run` gives one of the last two.
pub data Handle : Type 0 where
  no_thread err_thread a_thread : Handle

-- `pdm_thread_t`, with whether the thread that was started runs.
pub record Thread : Type 0 where
  pub thread : Handle
  pub stopped : Bool
  pub runs : Bool

-- an entry of bytes 0
abbrev pub no_entry : Thread
no_entry = record { thread = no_thread; stopped = false; runs = false }

-- the entry with the answer of `kthread_run`
abbrev pub entry_of : Handle → Thread
entry_of no_thread = no_entry
entry_of err_thread = record no_entry { thread = err_thread }
entry_of a_thread = record no_entry { thread = a_thread; runs = true }

-- `_kill_threads`; none is `kthread_stop` of an error's number.
unfoldable pub kill_threads : List Thread → Option (List Thread)
kill_threads [] = some []
kill_threads (t ∷ ts) = killed t.thread (kill_threads ts)
  where
    killed : Handle → Option (List Thread) → Option (List Thread)
    killed err_thread o = none
    killed no_thread none = none
    killed no_thread (some rest) = some (t ∷ rest)
    killed a_thread none = none
    killed a_thread (some rest) =
        some (record { thread = no_thread; stopped = true; runs = false } ∷ rest)

-- The loop of `pdm_create`, with the answers of `kthread_run`: whether all entries have a thread, and
-- the entries. It ends at the first NULL.
unfoldable pub start_threads : List Handle → Bool × List Thread
start_threads [] = (true, [])
start_threads (no_thread ∷ hs) = (false, no_entry ∷ map (λ _. no_entry) hs)
start_threads (h ∷ hs) = let (all, ts) = start_threads hs in (all, entry_of h ∷ ts)

-- The two ends of `pdm_create`: on the way out after a failure the threads are killed.
abbrev pub left_over : Option (List Thread) → Option (Option (List Thread) × List Thread)
left_over none = none
left_over (some ts) = some (none, ts)

abbrev pub create_end : Bool × List Thread → Option (Option (List Thread) × List Thread)
create_end (true, ts) = some (some ts, ts)
create_end (false, ts) = left_over (kill_threads ts)

-- `pdm_create`, with whether its arguments are set, the memory, and the answers for the entries of
-- `gpdmcfg`: the daemon's entries or none for NULL, and the entries as they are left.
unfoldable pub pdm_create :
    (args mem : Bool) → List Handle → Option (Option (List Thread) × List Thread)
pdm_create args mem answers =
    if not args || not mem then some (none, []) else create_end (start_threads answers)

-- `pdm_destroy` of a daemon: the entries as they are left.
abbrev pub pdm_destroy : List Thread → Option (List Thread)
pdm_destroy = kill_threads

-- All entries have a thread that runs, and none has.
unfoldable pub AllRun : List Thread → Type 0
AllRun [] = Unit
AllRun (t ∷ ts) = (t.runs ≡ true) × AllRun ts

unfoldable pub NoneRuns : List Thread → Type 0
NoneRuns [] = Unit
NoneRuns (t ∷ ts) = (t.runs ≡ false) × NoneRuns ts

-- No answer is NULL, as `kthread_run` documents.
unfoldable pub NoNull : List Handle → Type 0
NoNull [] = Unit
NoNull (no_thread ∷ hs) = ⊥
NoNull (err_thread ∷ hs) = NoNull hs
NoNull (a_thread ∷ hs) = NoNull hs

-- Whether an answer is an error's number.
unfoldable pub any_err : List Handle → Bool
any_err [] = false
any_err (no_thread ∷ hs) = any_err hs
any_err (err_thread ∷ hs) = true
any_err (a_thread ∷ hs) = any_err hs

-- The entries that `pdm_create` leaves if no answer is NULL.
filled : (hs : List Handle) → NoNull hs → (start_threads hs).0 ≡ true
unfolding NoNull start_threads
filled [] h = refl
filled (no_thread ∷ hs) h = elim h [ ]
filled (err_thread ∷ hs) h = filled hs h
filled (a_thread ∷ hs) h = filled hs h

-- If no answer is an error's number, all threads run and can be stopped.
started :
    (hs : List Handle)
    → NoNull hs
    → any_err hs ≡ false
    → AllRun (start_threads hs).1
      × ((us : List Thread) × (kill_threads (start_threads hs).1 ≡ some us) × NoneRuns us)
unfolding NoNull any_err start_threads kill_threads AllRun NoneRuns
started [] h e = (tt, ([], refl, tt))
started (no_thread ∷ hs) h e = elim h [ ]
started (err_thread ∷ hs) h e = absurd (ground arith)
started (a_thread ∷ hs) h e =
    let (run, (us, k, r)) = started hs h e in
    (
      (refl, run),
      (record { thread = no_thread; stopped = true; runs = false } ∷ us, rw k refl, (refl, r)),
    )

-- If one is, stopping the entries stops a thread that is none.
stuck :
    (hs : List Handle) → NoNull hs → any_err hs ≡ true → kill_threads (start_threads hs).1 ≡ none
unfolding NoNull any_err start_threads kill_threads
stuck [] h e = absurd (ground arith)
stuck (no_thread ∷ hs) h e = elim h [ ]
stuck (err_thread ∷ hs) h e = refl
stuck (a_thread ∷ hs) h e = rw (stuck hs h e) refl

-- `kthread_run` answers with a thread or with an error's number, never with NULL. Whatever it answers, if
-- the arguments and the memory are there, `pdm_create` gives a daemon. If all answers are threads, they
-- all run and `pdm_destroy` stops them all; if any is an error's number, `pdm_destroy` passes it
-- to `kthread_stop`.
pub pdm_create-NoNull :
    (answers : List Handle)
    → NoNull answers
    → (ts : List Thread) × (pdm_create true true answers ≡ some (some ts, ts))
      × (any_err answers ≡ false
          → AllRun ts × ((us : List Thread) × (pdm_destroy ts ≡ some us) × NoneRuns us))
      × (any_err answers ≡ true → pdm_destroy ts ≡ none)
unfolding pdm_create
pdm_create-NoNull answers h =
    let ts = (start_threads answers).1 in
    (ts, ap (λ b. create_end (b, ts)) (filled answers h), started answers h, stuck answers h)
