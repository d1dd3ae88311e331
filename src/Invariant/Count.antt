-- ===== src/Invariant/Count.antt =====
-- How a write to one fragment changes the number of free fragments.
use iostash.Prelude.{
  ℕ, ◌+◌, ◌≤◌, ◌<◌, ◌≡◌, ◌≢◌, arith, sum_below, sum_below-change, sum_below-le, sum_below-lt,
  sum_below-cong, update, update_self, update_other, sum_below_ones, ap, ◌∙◌, ◌^◌, ◌*◌,
}
use iostash.Word.{sce_maxcdev, fragnum_withinfreelist}
use iostash.State.{Cdevs, Loc, Frag, Cdev, frag_in, set_in}
use iostash.Invariant.{IsFrag, is_free, dev_free, free_count, frag_count}

dev_free-update :
    (c : Cdev) (o : ℕ) (f : Frag)
    → o < c.nr_frag
    → dev_free (record c { fragtbl = update c.fragtbl o f }) + is_free (c.fragtbl o)
      ≡ dev_free c + is_free f
dev_free-update c o f h =
    sum_below-change c.nr_frag o (λ i. is_free (update c.fragtbl o f i))
      (λ i. is_free (c.fragtbl i)) h (λ j ne. ap is_free (update_other c.fragtbl o j f ne))
    ∙ ap (λ g. dev_free c + is_free g) (update_self c.fragtbl o f)

pub free_count-set_in :
    (t : Cdevs) (l : Loc) (f : Frag)
    → IsFrag t l
    → free_count (set_in t l f) + is_free (frag_in t l) ≡ free_count t + is_free f
free_count-set_in t l f v =
    let c = t l.dev in
    let c' : Cdev = record c { fragtbl = update c.fragtbl l.off f } in
    let devs =
      sum_below-change sce_maxcdev l.dev (λ d. dev_free (update t l.dev c' d)) (λ d. dev_free (t d))
        v.dev (λ j ne. ap dev_free (update_other t l.dev j c' ne)) in
    let here = ap dev_free (update_self t l.dev c') in
    omega (arith, devs, here, dev_free-update c l.off f v.off)

pub frag_count-set_in : (t : Cdevs) (l : Loc) (f : Frag) → frag_count (set_in t l f) ≡ frag_count t
frag_count-set_in t l f = sum_below-cong _ _ _ (λ d h. ground arith)

dev_free-le : (c : Cdev) → dev_free c ≤ c.nr_frag
dev_free-le c = omega (
  arith,
  sum_below-le c.nr_frag (λ o. is_free (c.fragtbl o)) (λ _. 1) (λ i. ground arith),
  sum_below_ones c.nr_frag,
)

dev_free-lt :
    (c : Cdev) (o : ℕ)
    → o < c.nr_frag
    → (c.fragtbl o).fragnum ≢ fragnum_withinfreelist
    → dev_free c < c.nr_frag
dev_free-lt c o h ne = omega (
  arith,
  sum_below-lt c.nr_frag o (λ o. is_free (c.fragtbl o)) (λ _. 1) h (λ i. ground arith)
      (ground arith),
  sum_below_ones c.nr_frag,
)

pub free_count-le : (t : Cdevs) → free_count t ≤ frag_count t
free_count-le t =
    sum_below-le sce_maxcdev (λ d. dev_free (t d)) (λ d. (t d).nr_frag) (λ d. dev_free-le (t d))

-- A fragment that is not free leaves room in the counters.
pub free_count-lt :
    (t : Cdevs) (l : Loc)
    → IsFrag t l
    → (frag_in t l).fragnum ≢ fragnum_withinfreelist
    → free_count t < frag_count t
free_count-lt t l v ne =
    sum_below-lt sce_maxcdev l.dev (λ d. dev_free (t d)) (λ d. (t d).nr_frag) v.dev
      (λ d. dev_free-le (t d)) (dev_free-lt (t l.dev) l.off v.off ne)

pub frag_count-small : (t : Cdevs) → ((d : ℕ) → (t d).nr_frag ≤ 2 ^ 24) → frag_count t ≤ 16 * 2 ^ 24
unfolding sum_below
frag_count-small t h =
    omega
      (arith, h 0, h 1, h 2, h 3, h 4, h 5, h 6, h 7, h 8, h 9, h 10, h 11, h 12, h 13, h 14, h 15)
