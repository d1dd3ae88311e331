-- ===== src/Hook/Life/Runs.antt =====
-- The code against the machine of phases, for one event and for a run.
use mathlib.Core.Path.{subst}
use iostash.Prelude.{ℕ, sym, Option, some, none, List, [], ◌∷◌}
use iostash.State.{Loc}
use iostash.Host.{Host, IostashBio, ◌>>=◌}
use iostash.Hook.Life.{
  Phase, at_ssd, Event, Move, served, failed, retried, no_memory, answered, freed_twice, Books, In,
  handle, Follows,
}
use iostash.Hook.Life.Steps.{
  Fits, at_disk-answered, at_disk_early-freed, at_ssd-failed, retrying-retried, retrying-stuck,
  at_ssd-served,
}

-- What the engine must be for the phase: only a read that is at the SSD goes back to it.
abbrev pub Ready : Host → IostashBio → Phase → Type 0
Ready w b at_ssd = (ls : List Loc) × Fits w b ls
Ready w b p = Unit {0}

-- An event of a read that was taken over does what the machine does.
pub handle-Follows :
    (p : Phase) (e : Event) (out : Option Phase) (w : Host) (a : ℕ) (b : IostashBio) (k : Books)
    → Move p e out
    → Ready w b p
    → In w a b k p
    → Follows a b k out (handle e a w)
handle-Follows p e out w a b k served f i = at_ssd-served w a b k f.0 f.1 i
handle-Follows p e out w a b k failed f i = at_ssd-failed w a b k i
handle-Follows p e out w a b k retried f i = retrying-retried w a b k i
handle-Follows p e out w a b k no_memory f i = retrying-stuck w a b k i
handle-Follows p e out w a b k (answered err) f i = at_disk-answered w a b k err i
handle-Follows p e out w a b k (freed_twice err) f i =
    subst (Follows a b k none) (sym (at_disk_early-freed w a b k err i)) tt

-- The machine's runs.
pub data Runs : Phase → List Event → Option Phase → Type 0 where
  done : {p : Phase} → Runs p [] (some p)
  step :
      {p q : Phase} {e : Event} {es : List Event} {out : Option Phase}
      → Move p e (some q)
      → Runs q es out
      → Runs p (e ∷ es) out
  freed : {p : Phase} {e : Event} {es : List Event} → Move p e none → Runs p (e ∷ es) none

abbrev pub run_events : ℕ → List Event → Host → Option Host
run_events a [] w = some w
run_events a (e ∷ es) w = handle e a w >>= run_events a es

next-Ready : (p q : Phase) (e : Event) (w : Host) (b : IostashBio) → Move p e (some q) → Ready w b q
next-Ready p q e w b served = tt
next-Ready p q e w b failed = tt
next-Ready p q e w b retried = tt
next-Ready p q e w b no_memory = tt
next-Ready p q e w b (answered err) = tt

module _ (a : ℕ) (b : IostashBio) (k : Books) where
  abbrev Rest : List Event → Option Phase → Phase → Type 0
  Rest es out q = (w : Host) → Ready w b q → In w a b k q → Follows a b k out (run_events a es w)

  step_on :
      {p q : Phase} {e : Event} (es : List Event) (out : Option Phase) (o : Option Host)
      → Move p e (some q)
      → Rest es out q
      → Follows a b k (some q) o
      → Follows a b k out (o >>= run_events a es)
  step_on es out none m r f = absurd f
  step_on {p} {q} {e} es out (some w) m r f = r w (next-Ready p q e w b m) f

  freed_on :
      (es : List Event) (o : Option Host)
      → Follows a b k none o
      → Follows a b k none (o >>= run_events a es)
  freed_on es none f = tt
  freed_on es (some w) f = absurd f

  -- A read that was taken over follows the machine of phases through any run of events, if the host is
  -- as `In` says of the first phase: its reference count and what it has in flight stay those of the
  -- phase; once it has ended, its bio has ended once more and the disk's and the SSD's counts are one
  -- less; where the machine uses freed memory the code does too. While the read is at the SSD, the engine
  -- must be in the invariant and know its LUN, and the read must not wrap.
  pub run_events-Follows :
      {p : Phase} {es : List Event} {out : Option Phase}
      → Runs p es out
      → (w : Host) → Ready w b p
      → In w a b k p
      → Follows a b k out (run_events a es w)
  run_events-Follows done w f i = i
  run_events-Follows (step {p} {q} {e} {es} {out} m r) w f i =
      step_on es out (handle e a w) m (run_events-Follows r)
        (handle-Follows p e (some q) w a b k m f i)
  run_events-Follows (freed {p} {e} {es} m) w f i =
      freed_on es (handle e a w) (handle-Follows p e none w a b k m f i)
