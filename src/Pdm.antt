-- ===== src/Pdm.antt =====
-- pdm.c: when the population daemon's threads cache a fragment.
pub mod Round
pub mod Threads
pub mod Undo
use iostash.Prelude.{
  ℕ, ◌+◌, ◌-◌, ◌*◌, ◌/◌, ◌%◌, ◌^◌, Bool, not, ◌&&◌, if◌then◌else◌, ltb, ◌==◌, List, [], ◌∷◌,
}

-- `sce_status_t`
pub record Status : Type 0 where
  pub nr_hit : ℕ
  pub nr_miss : ℕ
  pub nr_freefrag : ℕ
  pub nr_totfrag : ℕ
  pub nr_eviction : ℕ

-- `pdm_cfg_t`
pub record Cfg : Type 0 where
  pub period_ms : ℕ
  pub target_missrate : ℕ
  pub min_freefragper : ℕ

abbrev cfg : ℕ → ℕ → ℕ → Cfg
cfg p t m = record { period_ms = p; target_missrate = t; min_freefragper = m }

-- `gpdmcfg`
abbrev pub gpdmcfg : List Cfg
gpdmcfg =
    cfg 200 50 35
    ∷ cfg 300 45 30
    ∷ cfg 400 40 25
    ∷ cfg 500 35 20
    ∷ cfg 600 50 0
    ∷ cfg 700 25 0
    ∷ cfg 800 13 0
    ∷ cfg 5000 0 0
    ∷ []

-- a counter's growth, or its value after a wrap
abbrev pub growth : (now prev : ℕ) → ℕ
growth now prev = if ltb prev now then now - prev else now

-- `_calc_missrate`, in 32-bit arithmetic
unfoldable pub calc_missrate : (prev now : Status) → ℕ
calc_missrate prev now =
    let misscnt = growth now.nr_miss prev.nr_miss in
    let total = (growth now.nr_hit prev.nr_hit + misscnt) % 2 ^ 32 in
    if total == 0 then 0 else (misscnt * 100) % 2 ^ 32 / total

-- `_calc_freefragper`, in 32-bit arithmetic
unfoldable pub calc_freefragper : Status → ℕ
calc_freefragper st =
    if st.nr_totfrag == 0 then 0 else (st.nr_freefrag * 100) % 2 ^ 32 / st.nr_totfrag

-- The tests of one round of `_pdm_thread`: it asks for a population task.
unfoldable pub wants_population : Cfg → (prev now : Status) → Bool
wants_population c prev now =
    not (ltb (calc_freefragper now) c.min_freefragper)
    && not (ltb (calc_missrate prev now) c.target_missrate)
