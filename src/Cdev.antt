-- ===== src/Cdev.antt =====
-- sce_cachedev.c: the cache devices.
use iostash.Prelude.{ℕ, ◌/◌, ◌%◌, ◌^◌, Bool, true, false, ◌==◌, Option, if◌then◌else◌, ltb}
use iostash.Word.{sce_maxcdev, sce_sctrperfrag}
use iostash.State.{Sce, Cdev, Frag, Ret, success, error}
use iostash.Lun.Index.{search_from}

-- a `frag_t` of bytes 0x55
abbrev pub filled_frag : Frag
filled_frag = record {
  lunidx = 0x5555;
  fragnum = 0x55555555;
  bitmap = λ _ i. i % 2 == 0;
  nr_valid = 0x5555;
  nr_service = 0x5555;
  nr_hit = 0x55555555;
  nr_miss = 0x55555555;
  nr_ref = 0x55;
  next = 0x55555555;
}

-- a `cdev_t` of bytes 0
abbrev pub no_cdev : Cdev
no_cdev = record {
  has_scehndl = false;
  cdevctx = 0;
  nr_frag = 0;
  has_fragtbl = false;
  fragtbl = λ _. filled_frag;
}

-- `_cdev_search`; none is -1.
unfoldable pub cdev_search : Sce → (cdevctx : ℕ) → Option ℕ
cdev_search s cdevctx = search_from sce_maxcdev 0 (λ i. (s.cdevtbl i).cdevctx) cdevctx

-- `_cdev_destroy`
unfoldable pub cdev_destroy : Cdev → Cdev
cdev_destroy c = no_cdev

-- `_cdev_init`, with whether `vmalloc` gives memory.
unfoldable pub cdev_init : (mem : Bool) → (nr_sctr : ℕ) → Cdev → Ret × Cdev
cdev_init mem nr_sctr c =
    if ltb nr_sctr sce_sctrperfrag
    then (error, c)
    else if mem
    then (
      success,
      record no_cdev {
        has_scehndl = true;
        nr_frag = nr_sctr / sce_sctrperfrag % 2 ^ 32;
        has_fragtbl = true;
      },
    )
    else (error, cdev_destroy c)
