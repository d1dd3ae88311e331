-- ===== src/Host/Ssd/Answers.antt =====
-- `ssd_register` and `_unload_ssd` of iostash_ssd.c, whatever the kernel answers during a registration.
use iostash.Prelude.{ℕ, ◌<◌, ◌≡◌, Bool, true, false, some, List}
use iostash.Word.{sce_maxcdev}
use iostash.State.{Loc}
use iostash.Invariant.{Inv}
use iostash.Host.{Host}
use iostash.Host.Ssd.{SsdProbe}

module _ (hash : ℕ → ℕ) (k : SsdProbe) (w : Host) where
  -- The table and its count are those of `w`, and the engine is in the invariant.
  pub record Untouched (x : Host) : Type 0 where
    pub engine : (ls : List Loc) × Inv x.sce ls
    pub table : x.ssdtbl ≡ w.ssdtbl
    pub count : x.nr_ssd ≡ w.nr_ssd

  -- The device at `p` is not in use yet.
  record Fresh (p : ℕ) (x : Host) : Type 0 where
    host : Untouched x
    offline : (x.ssds p).online ≡ false
    index : (c : ℕ) → (x.ssds p).cdev ≡ some c → c < sce_maxcdev

  data Started (p : ℕ) : Bool → Host → Type 0 where
    refused : {x : Host} → Fresh p x → Started p false x
    running : {x : Host} (ls : List Loc) → Inv x.sce ls → Started p true x

  -- What a registration leaves: the engine in the invariant and, if it failed, the table untouched.
  pub record Registering (done : Bool) (x : Host) : Type 0 where
    pub engine : (ls : List Loc) × Inv x.sce ls
    pub undone : done ≡ false → (x.ssdtbl ≡ w.ssdtbl) × (x.nr_ssd ≡ w.nr_ssd)
