-- ===== src/Fragment/Check.antt =====
-- `_check_bitmap` tests words under a mask; here it is a test of a run of pages.
use mathlib.Core.Bool.{and_comm, or-false}
use iostash.Prelude.{
  ℕ, zero, suc, ◌+◌, ◌-◌, ◌*◌, ◌/◌, ◌%◌, ◌≤◌, ◌<◌, ◌≡◌, refl, sym, ◌∙◌, Bool, ◌&&◌, ◌||◌, arith,
  if◌then◌else◌, ◌==◌, Bool-cases, inl, inr, ap, some, ==_iff, min,
}
use iostash.State.{Bitmap, Ret, success, error}
use iostash.Fragment.{nonzero, bits_and, shl, bit_one, check_mask, check_words, check_bitmap}
use iostash.Fragment.Pages.{page, within, any_in, any_in-cong, any_in-add, any_below-run}
use iostash.Fragment.Set.{page_of_word, nonzero_and}

-- The verdict on a run of pages: an error if any page of it is marked invalid.
abbrev pub verdict : Bool → Ret
verdict bad = if bad then error else success

check_mask-within :
    (offset c i : ℕ)
    → offset < 32
    → i < 32
    → (check_mask offset c).0 i ≡ within offset (min c (32 - offset)) i
check_mask-within offset c i h p = ground arith

check_mask-count : (offset c : ℕ) → (check_mask offset c).1 ≡ min c (32 - offset)
check_mask-count offset c = ground arith

any_in-split :
    (f : ℕ → Bool) (a m c : ℕ) → m ≤ c → any_in f a c ≡ (any_in f a m || any_in f (a + m) (c - m))
any_in-split f a m c h = ap (any_in f a) (omega arith) ∙ any_in-add f a m (c - m)

-- One round tests the pages of the run that lie in word `idx`.
check_round :
    (bm : Bitmap) (idx offset c : ℕ)
    → offset < 32
    → nonzero (bits_and (bm idx) (check_mask offset c).0)
      ≡ any_in (page bm) (idx * 32 + offset) (min c (32 - offset))
unfolding nonzero
check_round bm idx offset c h =
    any_below-run 32 (bits_and (bm idx) (check_mask offset c).0) (bm idx) offset
      (min c (32 - offset))
      (λ i p. ap (λ x. bm idx i && x) (check_mask-within offset c i h p) ∙ and_comm (bm idx i) _)
      (omega arith)
    ∙ any_in-cong (bm idx) (page bm) offset (idx * 32 + offset) (min c (32 - offset))
        (λ i p. sym (page_of_word bm idx (offset + i) (omega arith)) ∙ ap (page bm) (omega arith))

-- The pages after the word, if any are left.
any_in-next :
    (f : ℕ → Bool) (idx offset c : ℕ)
    → offset < 32
    → any_in f ((idx + 1) * 32 + 0) (c - min c (32 - offset))
      ≡ any_in f (idx * 32 + offset + min c (32 - offset)) (c - min c (32 - offset))
any_in-next f idx offset c h = any_in-cong f f _ _ _ (λ i p. ap f (omega arith))

check_words-any :
    (fuel : ℕ) (bm : Bitmap) (idx offset c : ℕ)
    → offset < 32
    → c ≤ fuel
    → check_words fuel bm idx offset c ≡ some (verdict (any_in (page bm) (idx * 32 + offset) c))
unfolding check_words
check_words-any fuel bm idx offset zero h f = unfold any_in in refl
check_words-any zero bm idx offset (suc c) h f = absurd (omega arith)
check_words-any (suc fuel) bm idx offset (suc c) h f =
    let n : ℕ = min (suc c) (32 - offset) in
    let round = check_round bm idx offset (suc c) h in
    let split = any_in-split (page bm) (idx * 32 + offset) n (suc c) (omega arith) in
    let next = any_in-next (page bm) idx offset (suc c) h in
    let rest = check_words-any fuel bm (idx + 1) 0 (suc c - n) (omega arith) (omega arith) in
    rw (round, split, check_mask-count offset (suc c), rest, next) (ground arith)

any_in-one : (f : ℕ → Bool) (a : ℕ) → any_in f a 1 ≡ f a
unfolding any_in
any_in-one f a = or-false (f a)

-- `_check_bitmap` never runs out of its fuel, and succeeds exactly when no page of the run is
-- marked invalid.
pub check_bitmap-any_in :
    (bm : Bitmap) (pgnum pgcnt : ℕ)
    → check_bitmap bm pgnum pgcnt ≡ some (verdict (any_in (page bm) pgnum pgcnt))
unfolding check_bitmap
check_bitmap-any_in bm pgnum pgcnt = elim (Bool-cases (pgcnt == 1)) [
  | inl e ↦
      rw
        (
          e,
          nonzero_and (shl bit_one (pgnum % 32)) (pgnum % 32) (λ i h. ground arith)
              (bm (pgnum / 32)) (omega arith),
        )
        (ap (λ x. some (verdict x))
          (sym (any_in-one (page bm) pgnum)
            ∙ ap (any_in (page bm) pgnum) (sym ((==_iff pgcnt 1).0 e))))
  | inr ne ↦ rw ne (
      check_words-any pgcnt bm (pgnum / 32) (pgnum % 32) pgcnt (omega arith) (omega arith)
      ∙ ap (λ n. some (verdict (any_in (page bm) n pgcnt))) (omega arith))
]
