-- ===== src/Fragment.antt =====
-- sce_fragment.c without SCE_AWT: the bitmap of invalid pages of a fragment.
pub mod Pages
pub mod Set
pub mod Check
pub mod Laws
pub mod Reads
use iostash.Prelude.{
  ℕ, zero, suc, ◌+◌, ◌-◌, ◌/◌, ◌%◌, ◌^◌, Bool, true, false, not, ◌&&◌, ◌||◌, Option, none, some,
  if◌then◌else◌, ltb, ◌==◌, update,
}
use iostash.Word.{sce_pageperfrag, u16_sub}
use iostash.State.{
  Bits, Bitmap, Frag, Ret, success, error, Run, ok, bug, out_of_fuel, Cmd, bug_on, pure, ◌>>=◌,
  ◌>>◌, Loc, set_frag, load, store,
}

-- `uint32_t` operations, bit by bit.
abbrev pub shl : Bits → ℕ → Bits
shl w k i = if ltb i k then false else if ltb i 32 then w (i - k) else false

abbrev pub shr : Bits → ℕ → Bits
shr w k i = if ltb (i + k) 32 then w (i + k) else false

abbrev pub bits_and : Bits → Bits → Bits
bits_and a b i = a i && b i

abbrev pub bits_or : Bits → Bits → Bits
bits_or a b i = a i || b i

abbrev pub bits_not : Bits → Bits
bits_not a i = not (a i)

abbrev pub any_below : ℕ → Bits → Bool
any_below zero w = false
any_below (suc n) w = w n || any_below n w

-- `w != 0`
unfoldable pub nonzero : Bits → Bool
nonzero w = any_below 32 w

-- `(bitmap_t) 1`, `(bitmap_t) (-1)` and 0
abbrev pub bit_one : Bits
bit_one i = i == 0

abbrev pub bit_ones : Bits
bit_ones i = true

abbrev pub bit_none : Bits
bit_none i = false

-- `_frag_init`
abbrev pub new_frag : Frag
new_frag = record {
  lunidx = 0;
  fragnum = 0;
  bitmap = λ _. bit_none;
  nr_valid = sce_pageperfrag;
  nr_service = 0;
  nr_hit = 0;
  nr_miss = 0;
  nr_ref = 0;
  next = 0;
}

unfoldable pub frag_init : Loc → Cmd Ret
frag_init l s = ok success (set_frag l new_frag s)

-- The inner loop of `_set_bitmap`: the word, the count of bits set, and the pages left.
unfoldable pub set_bits : (pgcnt : ℕ) → (mask b : Bits) → (nr_set : ℕ) → Bits × ℕ × ℕ
set_bits zero mask b nr_set = (b, nr_set, zero)
set_bits (suc pgcnt) mask b nr_set =
    let clear = not (nonzero (bits_and b mask)) in
    elim (nonzero mask) [
      | true ↦
          set_bits pgcnt (shl mask 1) (if clear then bits_or b mask else b)
            (if clear then nr_set + 1 else nr_set)
      | false ↦ (b, nr_set, suc pgcnt)
    ]

-- The outer loop, on fuel.
unfoldable pub set_words : ℕ → Bitmap → (idx : ℕ) → Bits → (pgcnt nr_set : ℕ) → Option (Bitmap × ℕ)
set_words fuel bitmap idx mask zero nr_set = some (bitmap, nr_set)
set_words zero bitmap idx mask (suc pgcnt) nr_set = none
set_words (suc fuel) bitmap idx mask (suc pgcnt) nr_set =
    let (b, nr, left) = set_bits (suc pgcnt) mask (bitmap idx) nr_set in
    set_words fuel (update bitmap idx b) (idx + 1) bit_one left nr

-- `_set_bitmap`
unfoldable pub set_bitmap : Bitmap → (pgnum pgcnt : ℕ) → Option (Bitmap × ℕ)
set_bitmap bitmap pgnum pgcnt =
    set_words pgcnt bitmap (pgnum / 32) (shl bit_one (pgnum % 32)) pgcnt 0

unfoldable pub reset_bits : (pgcnt : ℕ) → (mask b : Bits) → (nr_reset : ℕ) → Bits × ℕ × ℕ
reset_bits zero mask b nr_reset = (b, nr_reset, zero)
reset_bits (suc pgcnt) mask b nr_reset =
    let used = nonzero (bits_and b mask) in
    elim (nonzero mask) [
      | true ↦
          reset_bits pgcnt (shl mask 1) (if used then bits_and b (bits_not mask) else b)
            (if used then nr_reset + 1 else nr_reset)
      | false ↦ (b, nr_reset, suc pgcnt)
    ]

unfoldable pub reset_words :
    ℕ → Bitmap → (idx : ℕ) → Bits → (pgcnt nr_reset : ℕ) → Option (Bitmap × ℕ)
reset_words fuel bitmap idx mask zero nr_reset = some (bitmap, nr_reset)
reset_words zero bitmap idx mask (suc pgcnt) nr_reset = none
reset_words (suc fuel) bitmap idx mask (suc pgcnt) nr_reset =
    let (b, nr, left) = reset_bits (suc pgcnt) mask (bitmap idx) nr_reset in
    reset_words fuel (update bitmap idx b) (idx + 1) bit_one left nr

-- `_reset_bitmap`
unfoldable pub reset_bitmap : Bitmap → (pgnum pgcnt : ℕ) → Option (Bitmap × ℕ)
reset_bitmap bitmap pgnum pgcnt =
    reset_words pgcnt bitmap (pgnum / 32) (shl bit_one (pgnum % 32)) pgcnt 0

-- The mask and the number of bits that one round of `_check_bitmap` checks.
abbrev pub check_mask : (offset pgcnt : ℕ) → Bits × ℕ
check_mask offset pgcnt =
    if ltb pgcnt (32 - offset)
    then (shl (shr bit_ones (32 - pgcnt)) offset, pgcnt)
    else (shl bit_ones offset, 32 - offset)

-- The loop of `_check_bitmap`, on fuel.
unfoldable pub check_words : ℕ → Bitmap → (idx offset pgcnt : ℕ) → Option Ret
check_words fuel bitmap idx offset zero = some success
check_words zero bitmap idx offset (suc pgcnt) = none
check_words (suc fuel) bitmap idx offset (suc pgcnt) =
    let (mask, nr_check) = check_mask offset (suc pgcnt) in
    let rest = check_words fuel bitmap (idx + 1) 0 (suc pgcnt - nr_check) in
    if nonzero (bits_and (bitmap idx) mask) then some error else rest

-- `_check_bitmap`
unfoldable pub check_bitmap : Bitmap → (pgnum pgcnt : ℕ) → Option Ret
check_bitmap bitmap pgnum pgcnt =
    if pgcnt == 1
    then some (
        if nonzero (bits_and (bitmap (pgnum / 32)) (shl bit_one (pgnum % 32)))
        then error
        else success)
    else check_words pgcnt bitmap (pgnum / 32) (pgnum % 32) pgcnt

abbrev from_option : {A : Type 0} → Option A → Cmd A
from_option none s = out_of_fuel
from_option (some a) s = ok a s

-- `_frag_invalidate`: how many pages it invalidates.
unfoldable pub frag_invalidate : Loc → (pgnum pgcnt : ℕ) → Cmd ℕ
frag_invalidate l pgnum pgcnt = do
  bug_on (pgcnt == 0)
  bug_on (ltb sce_pageperfrag ((pgnum + pgcnt) % 2 ^ 32))
  frag ← load l
  (bitmap, nr_invalidated) ← from_option (set_bitmap frag.bitmap pgnum pgcnt)
  bug_on (ltb frag.nr_valid nr_invalidated)
  store l (record frag { bitmap = bitmap; nr_valid = u16_sub frag.nr_valid nr_invalidated })
  pure nr_invalidated

-- `_frag_isvalid`
unfoldable pub frag_isvalid : Loc → (pgnum pgcnt : ℕ) → Cmd Ret
frag_isvalid l pgnum pgcnt = do
  bug_on (pgcnt == 0)
  bug_on (ltb sce_pageperfrag ((pgnum + pgcnt) % 2 ^ 32))
  frag ← load l
  from_option (check_bitmap frag.bitmap pgnum pgcnt)
