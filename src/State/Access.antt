-- ===== src/State/Access.antt =====
-- Reads after writes through a fragment pointer.
use iostash.Prelude.{
  ℕ, ◌≡◌, true, false, arith, if◌then◌else◌, ◌==◌, Bool-cases, inl, inr, ap, ◌∙◌, update,
  update_self, update-update,
}
use mathlib.Core.Path.{fun_ext}
use iostash.State.{Cdev, Cdevs, Loc, Frag, frag_in, set_in, loc_eq}

module _ (t : Cdevs) (a b : Loc) (f : Frag) where
  pub frag_in-set_in : frag_in (set_in t a f) b ≡ (if loc_eq b a then f else frag_in t b)
  frag_in-set_in = ground arith

  pub frag_in-set_other : loc_eq a b ≡ false → frag_in (set_in t a f) b ≡ frag_in t b
  frag_in-set_other h = ground arith

  pub nr_frag-set_in : (set_in t a f b.dev).nr_frag ≡ (t b.dev).nr_frag
  nr_frag-set_in = ground arith

  pub has_fragtbl-set_in : (set_in t a f b.dev).has_fragtbl ≡ (t b.dev).has_fragtbl
  has_fragtbl-set_in = ground arith

pub frag_in-set_self : (t : Cdevs) (a : Loc) (f : Frag) → frag_in (set_in t a f) a ≡ f
frag_in-set_self t a f = ground arith

pub loc_eq_refl : (a : Loc) → loc_eq a a ≡ true
loc_eq_refl a = ground arith

pub loc_eq_sym : (a b : Loc) → loc_eq a b ≡ loc_eq b a
loc_eq_sym a b = ground arith

pub eq_of_loc_eq : (a b : Loc) → loc_eq a b ≡ true → a ≡ b
eq_of_loc_eq a b h = ground arith

-- The second of two writes to a fragment stays.
pub set_in-set_in : (t : Cdevs) (a : Loc) (f g : Frag) → set_in (set_in t a f) a g ≡ set_in t a g
set_in-set_in t a f g = fun_ext λ d. elim (Bool-cases (d == a.dev)) [
  | inl e ↦
      let c : Cdev = record (t a.dev) { fragtbl = update (t a.dev).fragtbl a.off f } in
      let write : Cdev → Cdev = λ x.
        if d == a.dev then record x { fragtbl = update x.fragtbl a.off g } else set_in t a f d in
      let fill : (ℕ → Frag) → Cdev = λ h. record (t a.dev) { fragtbl = h } in
      ap write (update_self t a.dev c) ∙ rw e (ap fill (update-update (t a.dev).fragtbl a.off f g))
  | inr ne ↦ ground arith
]
