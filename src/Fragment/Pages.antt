-- ===== src/Fragment/Pages.antt =====
-- A bitmap as a set of pages, and runs of pages in it.
use iostash.Prelude.{
  ℕ, zero, suc, ◌+◌, ◌/◌, ◌%◌, ◌≤◌, ◌<◌, ◌≡◌, refl, ◌∙◌, Bool, false, ◌&&◌, ◌||◌, arith,
  if◌then◌else◌, ltb, leb, Bool-cases, inl, inr, ap,
}
use native.Mathlib.Nat.{zero-add, add-zero}
use iostash.State.{Bits, Bitmap}
use iostash.Fragment.{any_below}

-- the page's bit: set for an invalid page
abbrev pub page : Bitmap → ℕ → Bool
page bitmap p = bitmap (p / 32) (p % 32)

-- `p` is one of the `n` pages from `start` on
abbrev pub within : ℕ → ℕ → ℕ → Bool
within start n p = leb start p && ltb p (start + n)

-- some page of a run is set
unfoldable pub any_in : (ℕ → Bool) → ℕ → ℕ → Bool
any_in f start zero = false
any_in f start (suc n) = f start || any_in f (suc start) n

-- how many pages of a run are clear
unfoldable pub clear_in : (ℕ → Bool) → ℕ → ℕ → ℕ
clear_in f start zero = 0
clear_in f start (suc n) = (if f start then 0 else 1) + clear_in f (suc start) n

pub any_in-cong :
    (f g : ℕ → Bool) (a b n : ℕ)
    → ((i : ℕ) → i < n → f (a + i) ≡ g (b + i))
    → any_in f a n ≡ any_in g b n
unfolding any_in
any_in-cong f g a b zero h = refl
any_in-cong f g a b (suc n) h =
    let rest =
      any_in-cong f g (suc a) (suc b) n
        (λ i p. ap f (omega arith) ∙ h (suc i) (omega arith) ∙ ap g (omega arith)) in
    let first : f a ≡ g b = ap f (omega arith) ∙ h 0 (omega arith) ∙ ap g (omega arith) in
    ground arith

pub clear_in-cong :
    (f g : ℕ → Bool) (a b n : ℕ)
    → ((i : ℕ) → i < n → f (a + i) ≡ g (b + i))
    → clear_in f a n ≡ clear_in g b n
unfolding clear_in
clear_in-cong f g a b zero h = refl
clear_in-cong f g a b (suc n) h =
    let rest =
      clear_in-cong f g (suc a) (suc b) n
        (λ i p. ap f (omega arith) ∙ h (suc i) (omega arith) ∙ ap g (omega arith)) in
    let first : f a ≡ g b = ap f (omega arith) ∙ h 0 (omega arith) ∙ ap g (omega arith) in
    ground arith

suc-add : (m n : ℕ) → suc m + n ≡ suc (m + n)
suc-add m n = omega arith

suc-add_shift : (a m : ℕ) → suc a + m ≡ a + suc m
suc-add_shift a m = omega arith

pub any_in-add :
    (f : ℕ → Bool) (a m n : ℕ) → any_in f a (m + n) ≡ (any_in f a m || any_in f (a + m) n)
unfolding any_in
any_in-add f a zero n = rw (zero-add, add-zero)
any_in-add f a (suc m) n =
    rw (suc-add m n, any_in-add f (suc a) m n, suc-add_shift a m) (ground arith)

pub clear_in-add :
    (f : ℕ → Bool) (a m n : ℕ) → clear_in f a (m + n) ≡ clear_in f a m + clear_in f (a + m) n
unfolding clear_in
clear_in-add f a zero n = simp (zero-add, add-zero)
clear_in-add f a (suc m) n =
    rw (suc-add m n, clear_in-add f (suc a) m n, suc-add_shift a m) (omega arith)

pub clear_in-le : (f : ℕ → Bool) (a n : ℕ) → clear_in f a n ≤ n
unfolding clear_in
clear_in-le f a zero = omega arith
clear_in-le f a (suc n) = ground (arith, clear_in-le f (suc a) n)

any_in-suc : (f : ℕ → Bool) (a n : ℕ) → any_in f a (suc n) ≡ (any_in f a n || f (a + n))
any_in-suc f a n =
    ap (any_in f a) (omega arith) ∙ any_in-add f a n 1 ∙ unfold any_in in ground arith

pub any_below-none : (n : ℕ) (w : Bits) → ((i : ℕ) → i < n → w i ≡ false) → any_below n w ≡ false
any_below-none zero w h = refl
any_below-none (suc n) w h = ground (arith, h n, any_below-none n w (λ i p. h i (omega arith)))

-- A mask that has the bits of a run, cut to a word's bits, tests for a page of the run.
pub any_below-run :
    (n : ℕ) (w v : Bits) (a m : ℕ)
    → ((i : ℕ) → i < n → w i ≡ (within a m i && v i))
    → a + m ≤ n
    → any_below n w ≡ any_in v a m
unfolding any_in
any_below-run n w v a zero h b = any_below-none n w (λ i p. h i p ∙ ground arith)
any_below-run zero w v a (suc m) h b = absurd (omega arith)
any_below-run (suc n) w v a (suc m) h b = elim (Bool-cases (ltb (a + m) n)) [
  | inl small ↦ ground (arith, h n, any_below-run n w v a (suc m) (λ i p. h i (omega arith)))
  | inr top ↦
      let e : a + m ≡ n = ground arith in
      let rest = any_below-run n w v a m (λ i p. h i (omega arith) ∙ ground arith) (omega arith) in
      rw (any_in-suc v a m, ← rest, e) (ground (arith, h n))
]
