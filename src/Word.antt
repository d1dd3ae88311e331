-- ===== src/Word.antt =====
-- The constants of sce.h and sce_internal.h, and the bit fields of `pfid_t` and `fragdesc_t`.
-- A field is written by `/`, `%` and `*` of a power of two in place of shifts and masks.
use iostash.Prelude.{ℕ, ◌+◌, ◌-◌, ◌*◌, ◌/◌, ◌%◌, ◌^◌, Bool, ◌==◌}

-- `SCE_BITS4DEV`
abbrev pub sce_bits4dev : ℕ
sce_bits4dev = 4

abbrev pub sce_maxcdev : ℕ
sce_maxcdev = 16

abbrev pub sce_maxlun : ℕ
sce_maxlun = 256

abbrev pub sce_refceiling : ℕ
sce_refceiling = 4

abbrev pub sce_cachemisslogsize : ℕ
sce_cachemisslogsize = 1024

abbrev pub sce_misswindow : ℕ
sce_misswindow = 100

-- `SCE_FRAGSIZE / SCE_PAGESIZE`
abbrev pub sce_pageperfrag : ℕ
sce_pageperfrag = 256

-- `SCE_FRAGSIZE / SCE_SCTRSIZE`
abbrev pub sce_sctrperfrag : ℕ
sce_sctrperfrag = 2048

-- `SCE_PAGESIZE / SCE_SCTRSIZE`
abbrev pub sce_sctrperpage : ℕ
sce_sctrperpage = 8

-- Arithmetic of `uint16_t`, `uint32_t` and `atomic64_t`: decrements add the modulus first.
abbrev pub u16_inc : ℕ → ℕ
u16_inc a = (a + 1) % 2 ^ 16

abbrev pub u16_sub : ℕ → ℕ → ℕ
u16_sub a b = (a + 2 ^ 16 - b % 2 ^ 16) % 2 ^ 16

abbrev pub u32_add : ℕ → ℕ → ℕ
u32_add a b = (a + b) % 2 ^ 32

abbrev pub u32_sub : ℕ → ℕ → ℕ
u32_sub a b = (a + 2 ^ 32 - b % 2 ^ 32) % 2 ^ 32

abbrev pub u64_add : ℕ → ℕ → ℕ
u64_add a b = (a + b) % 2 ^ 64

abbrev pub u64_sub : ℕ → ℕ → ℕ
u64_sub a b = (a + 2 ^ 64 - b % 2 ^ 64) % 2 ^ 64

-- `(d & FRAGDESC_MAPPED) != 0`
abbrev pub is_mapped : ℕ → Bool
is_mapped d = d / 2 ^ 31 % 2 == 1

-- `(d & FRAGDESC_VALID) != 0`
abbrev pub is_valid : ℕ → Bool
is_valid d = d / 2 ^ 30 % 2 == 1

-- `FRAGDESC_DATA(d)`
abbrev pub fragdesc_data : ℕ → ℕ
fragdesc_data d = d % 2 ^ 28

-- `FRAGDESC_INC(d)`: the flags stay, the data wraps in 28 bits.
abbrev pub fragdesc_inc : ℕ → ℕ
fragdesc_inc d = d / 2 ^ 28 * 2 ^ 28 + (fragdesc_data d + 1) % 2 ^ 28

-- `d | FRAGDESC_MAPPED`
abbrev pub or_mapped : ℕ → ℕ
or_mapped d = d / 2 ^ 32 * 2 ^ 32 + 2 ^ 31 + d % 2 ^ 31

-- `d | FRAGDESC_VALID`
abbrev pub or_valid : ℕ → ℕ
or_valid d = d / 2 ^ 31 * 2 ^ 31 + 2 ^ 30 + d % 2 ^ 30

abbrev pub fragnum_withinfreelist : ℕ
fragnum_withinfreelist = 0xffffffff

abbrev pub fragnum_free : ℕ
fragnum_free = 0xfffffffe

-- `SCE_PFIDDEV(pf)`, `SCE_PFIDOFF(pf)` and `SCE_PFID(dev, off)`
abbrev pub pfid_dev : ℕ → ℕ
pfid_dev pf = pf / 2 ^ 24 % 2 ^ 4

abbrev pub pfid_off : ℕ → ℕ
pfid_off pf = pf % 2 ^ 24

abbrev pub pfid : ℕ → ℕ → ℕ
pfid dev off = dev % 2 ^ 4 * 2 ^ 24 + off % 2 ^ 24
