-- ===== src/Tests/Device.antt =====
-- A cache of one device with one fragment, and one LUN of one fragment, in the three states that the
-- fragment can be in, each with the invariant.
use iostash.Prelude.{
  ◌*◌, ℕ, ◌^◌, ◌≡◌, ◌≢◌, true, false, arith, if◌then◌else◌, ◌==◌, refl, sum_below, [], ◌∷◌,
}
use iostash.Word.{fragnum_free, fragnum_withinfreelist}
use iostash.State.{Sce, Cdev, Lun, Frag, Loc, at}
use iostash.Fragment.{new_frag}
use iostash.Fragment.Laws.{new_frag-Counted}
use iostash.Invariant.{IsFrag, free_count, has, Inv, MapsTo, FreeListIn, Sized}

abbrev device : Frag → ℕ → Cdev
device f d = record {
  has_scehndl = d == 0;
  cdevctx = 7;
  nr_frag = if d == 0 then 1 else 0;
  has_fragtbl = d == 0;
  fragtbl = λ o. f;
}

abbrev pub volume : ℕ → ℕ → Lun
volume desc i = record {
  has_scehndl = i == 0;
  has_fragmap = i == 0;
  fragmap = λ n. desc;
  lunctx = 9;
  nr_sctr = if i == 0 then 2048 else 0;
  nr_frag = if i == 0 then 1 else 0;
  nr_service = 0;
  waiting4deletion = false;
  stats = record {
    alloc_sctrs = 0;
    valid_sctrs = 0;
    populations = 0;
    reads = 0;
    read_sctrs = 0;
    read_hits = 0;
    writes = 0;
    write_sctrs = 0;
    write_hits = 0;
  };
}

abbrev pub one_fragment : Frag → (desc head nr_freefrag : ℕ) → Sce
one_fragment f desc head nr_freefrag = record {
  nr_cdev = 1;
  cdevtbl = device f;
  nr_lun = 1;
  luntbl = volume desc;
  nr_frag = 1;
  nr_freefrag = nr_freefrag;
  freefraglist = head;
  nr_hit = 0;
  nr_miss = 0;
  nr_eviction = 0;
  arm = 0;
  misslog_fragnum = λ i. 0;
  misslog_lunidx = λ i. 0;
  misslog_head = 0;
  misslog_size = 0;
}

abbrev pub here : Loc
here = at 0 0

abbrev free_frag : Frag
free_frag = record new_frag { fragnum = fragnum_withinfreelist }

abbrev used_frag : ℕ → Frag
used_frag nr_service = record new_frag { lunidx = 0; fragnum = 0; nr_service = nr_service }

abbrev pub free_state : Sce
free_state = one_fragment free_frag 0 (2 ^ 31) 1

abbrev pub used_state : ℕ → Sce
used_state nr_service = one_fragment (used_frag nr_service) (2 ^ 31) 0 0

-- the fragment mapped and valid
abbrev pub valid_state : ℕ → Sce
valid_state nr_service = one_fragment (used_frag nr_service) (3 * 2 ^ 30) 0 0

abbrev pub spare_state : Sce
spare_state = one_fragment (record new_frag { fragnum = fragnum_free }) 0 0 0

pub here-IsFrag : (f : Frag) → IsFrag (device f) here
here-IsFrag f = record { dev = omega arith; table = refl; off = omega arith }

Sized-volume : (desc i : ℕ) → Sized (volume desc i)
Sized-volume desc i = record { small = ground arith; fits = ground arith; covers = ground arith }

-- the one fragment
only_here : (f : Frag) (l : Loc) → IsFrag (device f) l → has l (here ∷ []) ≡ true
only_here f l fl = ground (arith, fl.table, fl.off)

lists :
    (f : Frag)
    → f.fragnum ≢ fragnum_withinfreelist
    → 0 ≡ free_count (device f)
    → FreeListIn (device f) 0 0 1 []
unfolding sum_below
lists f ne none_free = record {
  chain = refl;
  complete = λ l fl e. absurd (ne e);
  length = refl;
  counted = none_free;
  total = refl;
  sizes = λ d. ground arith;
  tables = λ d h. ground arith;
}

pub free_state-Inv : Inv free_state (here ∷ [])
unfolding sum_below
free_state-Inv = record {
  list = record {
    chain = (
      record { dev = refl; off = refl; low = omega arith; high = omega arith },
      here-IsFrag free_frag,
      refl,
      refl,
      refl,
    );
    complete = λ l fl e. only_here free_frag l fl;
    length = refl;
    counted = refl;
    total = refl;
    sizes = λ d. ground arith;
    tables = λ d h. ground arith;
  };
  mapped = record {
    forward = λ i n a b c e. absurd (ground arith);
    backward = λ l fl e. absurd (omega (arith, e));
    words = λ i n. omega arith;
    lengths = λ i. Sized-volume 0 i;
  };
  used = λ l fl e. absurd (omega (arith, e));
  devices = record { count = refl; handles = λ d. refl };
}

pub used_state-Inv : (nr_service : ℕ) → Inv (used_state nr_service) []
unfolding sum_below
used_state-Inv k = record {
  list = lists (used_frag k) (omega arith) refl;
  mapped = record {
    forward = λ i n a b c e. (
      here,
      record {
        frag = here-IsFrag (used_frag k);
        names = (refl, refl);
        lunidx = ground arith;
        fragnum = ground arith;
      },
    );
    backward = λ l fl e. record {
      index = omega arith;
      map = refl;
      handle = refl;
      fragnum = omega arith;
      mapped = refl;
      names = (ground (arith, fl.table), ground (arith, fl.table, fl.off));
    };
    words = λ i n. omega arith;
    lengths = λ i. Sized-volume _ i;
  };
  used = λ l fl e. record { pages = new_frag-Counted; next = refl };
  devices = record { count = refl; handles = λ d. refl };
}

pub valid_state-Inv : (nr_service : ℕ) → Inv (valid_state nr_service) []
unfolding sum_below
valid_state-Inv k = record {
  list = lists (used_frag k) (omega arith) refl;
  mapped = record {
    forward = λ i n a b c e. (
      here,
      record {
        frag = here-IsFrag (used_frag k);
        names = (refl, refl);
        lunidx = ground arith;
        fragnum = ground arith;
      },
    );
    backward = λ l fl e. record {
      index = omega arith;
      map = refl;
      handle = refl;
      fragnum = omega arith;
      mapped = refl;
      names = (ground (arith, fl.table), ground (arith, fl.table, fl.off));
    };
    words = λ i n. omega arith;
    lengths = λ i. Sized-volume _ i;
  };
  used = λ l fl e. record { pages = new_frag-Counted; next = refl };
  devices = record { count = refl; handles = λ d. refl };
}

pub spare_state-Inv : Inv spare_state []
unfolding sum_below
spare_state-Inv = record {
  list = lists (record new_frag { fragnum = fragnum_free }) (omega arith) refl;
  mapped = record {
    forward = λ i n a b c e. absurd (ground arith);
    backward = λ l fl e. absurd (omega (arith, e));
    words = λ i n. omega arith;
    lengths = λ i. Sized-volume 0 i;
  };
  used = λ l fl e. absurd (omega (arith, e));
  devices = record { count = refl; handles = λ d. refl };
}

pub used_state-MapsTo :
    (nr_service : ℕ)
    → MapsTo (used_state nr_service).cdevtbl (used_state nr_service).luntbl 0 0 here
used_state-MapsTo k = record {
  frag = here-IsFrag (used_frag k);
  names = (refl, refl);
  lunidx = refl;
  fragnum = refl;
}

-- the free state with a log of one miss, of a place that has been missed five times
abbrev pub logged_state : Sce
logged_state = record free_state { luntbl = volume 5; misslog_head = 1; misslog_size = 1 }

pub logged_state-Inv : Inv logged_state (here ∷ [])
logged_state-Inv = record {
  list = free_state-Inv.list;
  mapped = record {
    forward = λ i n a b c e. absurd (ground arith);
    backward = λ l fl e. absurd (omega (arith, e));
    words = λ i n. omega arith;
    lengths = λ i. Sized-volume 5 i;
  };
  used = λ l fl e. absurd (omega (arith, e));
  devices = free_state-Inv.devices;
}
