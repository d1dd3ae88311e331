-- ===== src/State.antt =====
-- The structures of sce_internal.h, and commands over the engine's state. A pointer to a LUN or a
-- cache device is its index in the table; a pointer to a fragment is the device and the offset.
-- A pointer field that may be NULL is a Boolean beside the data that it points to.
pub mod Access
use iostash.Prelude.{ℕ, ◌+◌, Bool, true, false, if◌then◌else◌, ◌==◌, ltb, update}

-- A word of a bitmap by its bits: bit `i` for `i < 32`.
abbrev pub Bits : Type 0
Bits = ℕ → Bool

-- `bitmap_t bitmap[BITMAPARRAYSIZE]`
abbrev pub Bitmap : Type 0
Bitmap = ℕ → Bits

-- `frag_t`
pub record Frag : Type 0 where
  pub lunidx : ℕ
  pub fragnum : ℕ
  pub bitmap : Bitmap
  pub nr_valid : ℕ
  pub nr_service : ℕ
  pub nr_hit : ℕ
  pub nr_miss : ℕ
  pub nr_ref : ℕ
  pub next : ℕ

-- `cdev_t`; `has_fragtbl` says that `fragtbl` is not NULL, `has_scehndl` that `scehndl` is not.
pub record Cdev : Type 0 where
  pub has_scehndl : Bool
  pub cdevctx : ℕ
  pub nr_frag : ℕ
  pub has_fragtbl : Bool
  pub fragtbl : ℕ → Frag

-- `struct lun_stats`: 64-bit counters, modulo 2 ^ 64.
pub record LunStats : Type 0 where
  pub alloc_sctrs : ℕ
  pub valid_sctrs : ℕ
  pub populations : ℕ
  pub reads : ℕ
  pub read_sctrs : ℕ
  pub read_hits : ℕ
  pub writes : ℕ
  pub write_sctrs : ℕ
  pub write_hits : ℕ

-- `lun_t`
pub record Lun : Type 0 where
  pub has_scehndl : Bool
  pub has_fragmap : Bool
  pub fragmap : ℕ → ℕ
  pub lunctx : ℕ
  pub nr_sctr : ℕ
  pub nr_frag : ℕ
  pub nr_service : ℕ
  pub waiting4deletion : Bool
  pub stats : LunStats

-- `sce_t`
pub record Sce : Type 0 where
  pub nr_cdev : ℕ
  pub cdevtbl : ℕ → Cdev
  pub nr_lun : ℕ
  pub luntbl : ℕ → Lun
  pub nr_frag : ℕ
  pub nr_freefrag : ℕ
  pub freefraglist : ℕ
  pub nr_hit : ℕ
  pub nr_miss : ℕ
  pub nr_eviction : ℕ
  pub arm : ℕ
  pub misslog_fragnum : ℕ → ℕ
  pub misslog_lunidx : ℕ → ℕ
  pub misslog_head : ℕ
  pub misslog_size : ℕ

-- `SCE_SUCCESS` and `SCE_ERROR`
pub data Ret : Type 0 where
  success error : Ret

-- How a command ends: with a result and the new state, in a `BUG_ON` or a read through NULL, or
-- with its fuel used up.
pub data Run (A : Type 0) : Type 0 where
  ok : A → Sce → Run A
  bug : Run A
  out_of_fuel : Run A

abbrev pub Cmd : Type 0 → Type 0
Cmd A = Sce → Run A

abbrev pub pure : {A : Type 0} → A → Cmd A
pure = ok

abbrev pub when : Bool → Cmd (Unit {0}) → Cmd (Unit {0})
when true c = c
when false c = ok tt

abbrev pub bug_on : Bool → Cmd (Unit {0})
bug_on true s = bug
bug_on false s = ok tt s

module _ {A B : Type 0} where
  abbrev pub and_then : Run A → (A → Cmd B) → Run B
  and_then (ok a s) k = k a s
  and_then bug k = bug
  and_then out_of_fuel k = out_of_fuel

  infixl 5 ◌>>=◌ ◌>>◌
  abbrev pub ◌>>=◌ : Cmd A → (A → Cmd B) → Cmd B
  m >>= k = λ s. and_then (m s) k

  abbrev pub ◌>>◌ : Cmd A → Cmd B → Cmd B
  m >> n = m >>= λ _. n

abbrev pub modify : (Sce → Sce) → Cmd (Unit {0})
modify f s = ok tt (f s)

-- The run ends normally, and result and state have the property: total correctness.
abbrev pub Returns : {A : Type 0} → (A → Sce → Type 0) → Run A → Type 0
Returns P (ok a s) = P a s
Returns P bug = ⊥
Returns P out_of_fuel = ⊥

-- A `frag_t *`
pub record Loc : Type 0 where
  pub dev : ℕ
  pub off : ℕ

abbrev pub at : ℕ → ℕ → Loc
at d o = record { dev = d; off = o }

abbrev pub loc_eq : Loc → Loc → Bool
loc_eq a b = if a.dev == b.dev then a.off == b.off else false

-- The tables of the cache devices.
abbrev pub Cdevs : Type 0
Cdevs = ℕ → Cdev

-- `*frag`, and `*frag = f`
abbrev pub frag_in : Cdevs → Loc → Frag
frag_in t l = (t l.dev).fragtbl l.off

abbrev pub set_in : Cdevs → Loc → Frag → Cdevs
set_in t l f = update t l.dev (record (t l.dev) { fragtbl = update (t l.dev).fragtbl l.off f })

abbrev pub frag_at : Sce → Loc → Frag
frag_at s l = frag_in s.cdevtbl l

abbrev pub set_frag : Loc → Frag → Sce → Sce
set_frag l f s = record s { cdevtbl = set_in s.cdevtbl l f }

abbrev pub set_lun : ℕ → Lun → Sce → Sce
set_lun i l s = record s { luntbl = update s.luntbl i l }

-- The same as commands.
abbrev pub read : {A : Type 0} → (Sce → A) → Cmd A
read f s = ok (f s) s

abbrev pub load : Loc → Cmd Frag
load l s = ok (frag_at s l) s

abbrev pub store : Loc → Frag → Cmd (Unit {0})
store l f s = ok tt (set_frag l f s)

abbrev pub modify_lun : ℕ → (Lun → Lun) → Cmd (Unit {0})
modify_lun i f s = ok tt (set_lun i (f (s.luntbl i)) s)

-- `lun->stats`
abbrev pub modify_stats : ℕ → (LunStats → LunStats) → Cmd (Unit {0})
modify_stats i f = modify_lun i λ l. record l { stats = f l.stats }

-- A read of `lun->fragmap[fragnum]` that the code does not guard: out of bounds it is a bug.
abbrev pub load_desc : ℕ → ℕ → Cmd ℕ
load_desc i fragnum s =
    if ltb fragnum (s.luntbl i).nr_frag then ok ((s.luntbl i).fragmap fragnum) s else bug

-- `lun->fragmap[fragnum]`, and `lun->fragmap[fragnum] = d`
abbrev pub Luns : Type 0
Luns = ℕ → Lun

abbrev pub desc_in : Luns → ℕ → ℕ → ℕ
desc_in u i fragnum = (u i).fragmap fragnum

abbrev pub set_desc_in : Luns → ℕ → ℕ → ℕ → Luns
set_desc_in u i fragnum d = update u i (record (u i) { fragmap = update (u i).fragmap fragnum d })

abbrev pub set_desc : ℕ → ℕ → ℕ → Sce → Sce
set_desc i fragnum d s = record s { luntbl = set_desc_in s.luntbl i fragnum d }
