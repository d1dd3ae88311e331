-- ===== src/Invariant/Chain.antt =====
-- The chain of free fragments under writes to the tables.
use mathlib.Core.Path.{subst}
use iostash.Prelude.{
  ℕ, ◌≡◌, ◌≢◌, true, false, arith, List, [], ◌∷◌, ap, ◌∙◌, sym, Bool-cases, inl, inr,
}
use iostash.Word.{fragnum_withinfreelist}
use iostash.State.{Cdevs, Loc, Frag, frag_in, set_in, loc_eq}
use iostash.State.Access.{frag_in-set_other, nr_frag-set_in, has_fragtbl-set_in, eq_of_loc_eq}
use iostash.Invariant.{IsFrag, Chain, has}

pub IsFrag-set_in : (t : Cdevs) (a b : Loc) (f : Frag) → IsFrag t b → IsFrag (set_in t a f) b
IsFrag-set_in t a b f v = record {
  dev = v.dev;
  table = has_fragtbl-set_in t a b f ∙ v.table;
  off = omega (arith, v.off, nr_frag-set_in t a b f);
}

pub IsFrag-of_set_in : (t : Cdevs) (a b : Loc) (f : Frag) → IsFrag (set_in t a f) b → IsFrag t b
IsFrag-of_set_in t a b f v = record {
  dev = v.dev;
  table = sym (has_fragtbl-set_in t a b f) ∙ v.table;
  off = omega (arith, v.off, nr_frag-set_in t a b f);
}

-- A write to a fragment outside the chain leaves it as it is.
pub Chain-set_in :
    (t : Cdevs) (a : Loc) (f : Frag) (h : ℕ) (ls : List Loc)
    → has a ls ≡ false
    → Chain t h ls
    → Chain (set_in t a f) h ls
Chain-set_in t a f h [] out c = c
Chain-set_in t a f h (l ∷ ls) out c =
    let same = frag_in-set_other t a l f (ground arith) in
    (
      c.0,
      IsFrag-set_in t a l f c.1,
      ap (λ g. g.fragnum) same ∙ c.2,
      c.3,
      subst (λ n. Chain (set_in t a f) n ls) (sym (ap (λ g. g.next) same))
          (Chain-set_in t a f (frag_in t l).next ls (ground arith) c.4),
    )

-- What stands in the chain is a fragment that is marked free.
pub has-Chain :
    (t : Cdevs) (a : Loc) (h : ℕ) (ls : List Loc)
    → Chain t h ls
    → has a ls ≡ true
    → (frag_in t a).fragnum ≡ fragnum_withinfreelist
has-Chain t a h [] c e = absurd (ground arith)
has-Chain t a h (l ∷ ls) c e = elim (Bool-cases (loc_eq a l)) [
  | inl same ↦ ap (λ x. (frag_in t x).fragnum) (eq_of_loc_eq a l same) ∙ c.2
  | inr ne ↦ has-Chain t a (frag_in t l).next ls c.4 (ground arith)
]

pub not-has_of_used :
    (t : Cdevs) (a : Loc) (h : ℕ) (ls : List Loc)
    → Chain t h ls
    → (frag_in t a).fragnum ≢ fragnum_withinfreelist
    → has a ls ≡ false
not-has_of_used t a h ls c ne = elim (Bool-cases (has a ls)) [
  | inl e ↦ absurd (ne (has-Chain t a h ls c e))
  | inr e ↦ e
]
