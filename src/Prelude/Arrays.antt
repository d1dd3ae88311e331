-- ===== src/Prelude/Arrays.antt =====
-- C arrays as functions of the index, and sums over an index range.
use Prim.Native.Nat.{ℕ, zero, suc, ◌+◌, ◌≤◌, ◌<◌}
use mathlib.Core.Path.{◌≡◌, refl, fun_ext, subst, sym}
use mathlib.Core.Logic.{inl, inr}
use mathlib.Core.Bool.{false}
use native.Mathlib.Omega.{arith}
use iostash.Prelude.Tests.{◌==◌, if◌then◌else◌, Bool-cases, ==_iff}

-- `a[i] = v`
abbrev pub update {ℓ} : {A : Type ℓ} → (ℕ → A) → ℕ → A → ℕ → A
update a i v j = if j == i then v else a j

pub update_self {ℓ} : {A : Type ℓ} (a : ℕ → A) (i : ℕ) (v : A) → update a i v i ≡ v
update_self a i v = ground arith

pub update_other {ℓ} :
    {A : Type ℓ} (a : ℕ → A) (i j : ℕ) (v : A) → (j == i) ≡ false → update a i v j ≡ a j
update_other a i j v h = rw h

pub update-update {ℓ} :
    {A : Type ℓ} (a : ℕ → A) (i : ℕ) (v w : A) → update (update a i v) i w ≡ update a i w
update-update a i v w = fun_ext λ j. ground arith

-- Σ of `f i` for `i < n`
unfoldable pub sum_below : ℕ → (ℕ → ℕ) → ℕ
sum_below zero f = 0
sum_below (suc n) f = f n + sum_below n f

pub sum_below-cong :
    (n : ℕ) (f g : ℕ → ℕ) → ((i : ℕ) → i < n → f i ≡ g i) → sum_below n f ≡ sum_below n g
unfolding sum_below
sum_below-cong zero f g h = refl
sum_below-cong (suc n) f g h =
    omega (arith, h n (omega arith), sum_below-cong n f g (λ i p. h i (omega arith)))

-- Changing one summand changes the sum by as much.
pub sum_below-change :
    (n i : ℕ) (f g : ℕ → ℕ)
    → i < n
    → ((j : ℕ) → (j == i) ≡ false → f j ≡ g j)
    → sum_below n f + g i ≡ sum_below n g + f i
unfolding sum_below
sum_below-change zero i f g p h = absurd (omega arith)
sum_below-change (suc n) i f g p h = elim (Bool-cases (n == i)) [
  | inl e ↦ ground (arith, sum_below-cong n f g (λ j q. h j (ground arith)))
  | inr ne ↦ ground (arith, h n ne, sum_below-change n i f g (ground arith) h)
]

pub sum_below-le : (n : ℕ) (f g : ℕ → ℕ) → ((i : ℕ) → f i ≤ g i) → sum_below n f ≤ sum_below n g
unfolding sum_below
sum_below-le zero f g h = omega arith
sum_below-le (suc n) f g h = omega (arith, h n, sum_below-le n f g h)

pub sum_below-lt :
    (n i : ℕ) (f g : ℕ → ℕ)
    → i < n
    → ((j : ℕ) → f j ≤ g j)
    → f i < g i
    → sum_below n f < sum_below n g
unfolding sum_below
sum_below-lt zero i f g p h lt = absurd (omega arith)
sum_below-lt (suc n) i f g p h lt = elim (Bool-cases (n == i)) [
  | inl e ↦ ground (arith, sum_below-le n f g h)
  | inr ne ↦ ground (arith, h n, sum_below-lt n i f g (ground arith) h lt)
]

pub sum_below_ones : (n : ℕ) → sum_below n (λ _. 1) ≡ n
unfolding sum_below
sum_below_ones zero = refl
sum_below_ones (suc n) = omega (arith, sum_below_ones n)

-- What holds of the new entry and of all old ones holds of all.
pub update_all {ℓ ℓ'} :
    {A : Type ℓ} (P : ℕ → A → Type ℓ') (f : ℕ → A) (i : ℕ) (a : A)
    → P i a
    → ((j : ℕ) → P j (f j))
    → (j : ℕ) → P j (update f i a j)
update_all P f i a new old j = elim (Bool-cases (j == i)) [
  | inl e ↦
      subst (λ x. P x (update f i a x)) (sym ((==_iff j i).0 e))
        (subst (P i) (sym (update_self f i a)) new)
  | inr ne ↦ subst (P j) (sym (update_other f i j a ne)) (old j)
]
