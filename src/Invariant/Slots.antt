-- ===== src/Invariant/Slots.antt =====
-- The number of attached devices under writes to the tables.
use iostash.Prelude.{
  ℕ, ◌+◌, ◌≤◌, ◌<◌, ◌≡◌, true, arith, ap, ◌∙◌, sym, update, update_self, update_other, update_all,
  sum_below-change, sum_below-cong, sum_below-le, sum_below-lt, sum_below_ones, if◌then◌else◌,
}
use iostash.Word.{sce_maxcdev}
use iostash.State.{Cdev, Cdevs, Loc, at, Frag, set_in}
use iostash.State.Access.{has_fragtbl-set_in}
use iostash.Invariant.{is_attached, cdev_count, Attached}

pub Attached-small : {t : Cdevs} {n : ℕ} → Attached t n → n ≤ sce_maxcdev
Attached-small {t} v = omega (
  arith,
  v.count,
  sum_below-le sce_maxcdev (λ d. is_attached (t d)) (λ _. 1) (λ d. ground arith),
  sum_below_ones sce_maxcdev,
)

-- An attached device counts.
pub Attached-some :
    {t : Cdevs} {n : ℕ}
    → Attached t n
    → (d : ℕ) → d < sce_maxcdev
    → (t d).has_fragtbl ≡ true
    → 0 < n
Attached-some {t} v d hd h = omega (
  arith,
  v.count,
  sum_below-lt sce_maxcdev d (λ _. 0) (λ j. is_attached (t j)) hd (λ j. omega arith)
      (ground (arith, h)),
)

-- Tables with the same slots.
pub Attached-same :
    {t t' : Cdevs} {n : ℕ}
    → ((d : ℕ) → (t' d).has_fragtbl ≡ (t d).has_fragtbl)
    → ((d : ℕ) → (t' d).has_scehndl ≡ (t d).has_scehndl)
    → Attached t n
    → Attached t' n
Attached-same {t} {t'} tables handles v = record {
  count =
      v.count
      ∙ sum_below-cong sce_maxcdev (λ d. is_attached (t d)) (λ d. is_attached (t' d))
          (λ d h. ap (λ b. if b then 1 else 0) (sym (tables d)));
  handles = λ d. handles d ∙ v.handles d ∙ sym (tables d);
}

pub has_scehndl-set_in :
    (t : Cdevs) (l : Loc) (f : Frag) (d : ℕ) → (set_in t l f d).has_scehndl ≡ (t d).has_scehndl
has_scehndl-set_in t l f d = ground arith

pub Attached-set_in :
    {t : Cdevs} {n : ℕ} (l : Loc) (f : Frag) → Attached t n → Attached (set_in t l f) n
Attached-set_in {t} l f =
    Attached-same (λ d. has_fragtbl-set_in t l (at d 0) f) (has_scehndl-set_in t l f)

-- A slot that is filled or emptied.
pub Attached-update :
    {t : Cdevs} {n : ℕ} (m d : ℕ) (c : Cdev)
    → d < sce_maxcdev
    → c.has_scehndl ≡ c.has_fragtbl
    → n + is_attached c ≡ m + is_attached (t d)
    → Attached t n
    → Attached (update t d c) m
Attached-update {t} m d c hd h e v =
    let change : cdev_count t + is_attached (update t d c d)
        ≡ cdev_count (update t d c) + is_attached (t d) =
      sum_below-change sce_maxcdev d (λ j. is_attached (t j)) (λ j. is_attached (update t d c j)) hd
        (λ j ne. ap is_attached (sym (update_other t d j c ne))) in
    record {
      count = omega (arith, change, v.count, e, ap is_attached (update_self t d c));
      handles = update_all (λ j x. x.has_scehndl ≡ x.has_fragtbl) t d c h v.handles;
    }
