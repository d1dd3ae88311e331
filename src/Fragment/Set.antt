-- ===== src/Fragment/Set.antt =====
-- `_set_bitmap` walks words by a shifted mask; here it is a walk over pages.
use mathlib.Core.Path.{subst}
use iostash.Prelude.{
  ap₂, ◌≢◌, ℕ, zero, suc, ◌+◌, ◌-◌, ◌*◌, ◌/◌, ◌%◌, ◌≤◌, ◌<◌, ◌≡◌, refl, sym, ◌∙◌, Bool, true, false,
  not, ◌||◌, arith, if◌then◌else◌, ◌==◌, Bool-cases, inl, inr, ap, ◌⊎◌, some, update, ==_iff, min,
}
use mathlib.Core.Bool.{or-false, or_assoc}
use iostash.State.{Bits, Bitmap}
use iostash.Fragment.{nonzero, bits_and, bits_or, shl, bit_one, set_bits, set_words, set_bitmap}
use iostash.Fragment.Pages.{
  page, within, any_in, clear_in, clear_in-cong, clear_in-add, any_below-run, any_below-none,
}

-- `mask` has bit `k` alone
abbrev pub IsBit : Bits → ℕ → Type 0
IsBit mask k = (i : ℕ) → i < 32 → mask i ≡ (i == k)

module _ (mask : Bits) (k : ℕ) (one : IsBit mask k) where
  nonzero_bit : k < 32 → nonzero mask ≡ true
  unfolding nonzero any_in
  nonzero_bit h =
      any_below-run 32 mask (λ _. true) k 1 (λ i p. one i p ∙ ground arith) (omega arith)

  nonzero_past : 32 ≤ k → nonzero mask ≡ false
  unfolding nonzero
  nonzero_past h = any_below-none 32 mask (λ i p. one i p ∙ ground arith)

  pub nonzero_and : (b : Bits) → k < 32 → nonzero (bits_and b mask) ≡ b k
  unfolding nonzero any_in
  nonzero_and b h =
      any_below-run 32 (bits_and b mask) b k 1 (λ i p. ground (arith, one i p)) (omega arith)
      ∙ ground arith

  IsBit-shl : IsBit (shl mask 1) (suc k)
  IsBit-shl i h = ground (arith, one (i - 1))

-- What one round does to a word.
abbrev set_one : Bits → Bits → ℕ → Bits
set_one mask b k = if not (b k) then bits_or b mask else b

set_one-bit : (mask b : Bits) (k i : ℕ) → mask i ≡ (i == k) → set_one mask b k i ≡ (b i || (i == k))
set_one-bit mask b k i h = elim (Bool-cases (i == k)) [
  | inl e ↦ ground (arith, h, ap b ((==_iff i k).0 e))
  | inr ne ↦ ground (arith, h)
]

within-step : (k m i : ℕ) → ((i == k) || within (suc k) m i) ≡ within k (suc m) i
within-step k m i = ground arith

set_one-count :
    (mask b : Bits) (k m : ℕ)
    → IsBit mask k
    → k + suc m ≤ 32
    → clear_in (set_one mask b k) (suc k) m ≡ clear_in b (suc k) m
set_one-count mask b k m one h =
    clear_in-cong _ b (suc k) (suc k) m
      λ i p. set_one-bit mask b k (suc k + i) (one (suc k + i) (omega arith)) ∙ ground arith

record SetWord (b : Bits) (k m c nr : ℕ) (out : Bits × ℕ × ℕ) : Type 0 where
  bits : (i : ℕ) → i < 32 → out.0 i ≡ (b i || within k m i)
  count : out.1 ≡ nr + clear_in b k m
  left : out.2 ≡ c - m

-- The inner loop sets `m` bits from `k` on: all that are asked for, or those up to the word's end.
set_bits-SetWord :
    (c m : ℕ) (mask b : Bits) (nr k : ℕ)
    → IsBit mask k
    → m ≤ c
    → k + m ≤ 32
    → (m ≡ c) ⊎ (k + m ≡ 32)
    → SetWord b k m c nr (set_bits c mask b nr)
unfolding set_bits clear_in
set_bits-SetWord zero zero mask b nr k one p q r = record {
  bits = λ i h. ground arith;
  count = omega arith;
  left = omega arith;
}
set_bits-SetWord zero (suc m) mask b nr k one p q r = absurd (omega arith)
set_bits-SetWord (suc c) zero mask b nr k one p q r =
    rw (nonzero_past mask k one (omega arith), set_bits)
      (record { bits = λ i h. ground arith; count = omega arith; left = omega arith })
set_bits-SetWord (suc c) (suc m) mask b nr k one p q r =
    let bit = nonzero_and mask k one b (omega arith) in
    let rest : SetWord (set_one mask b k) (suc k) m c (if not (b k) then nr + 1 else nr)
        (set_bits c (shl mask 1) (set_one mask b k) (if not (b k) then nr + 1 else nr)) =
      set_bits-SetWord c m (shl mask 1) (set_one mask b k) (if not (b k) then nr + 1 else nr)
        (suc k) (IsBit-shl mask k one) (omega arith) (omega arith) (ground arith) in
    rw (nonzero_bit mask k one (omega arith), bit, set_bits)
      (record {
        bits = λ i h.
            rest.bits i h
            ∙ ap (λ x. x || within (suc k) m i) (set_one-bit mask b k i (one i h))
            ∙ ground (arith, within-step k m i);
        count = rest.count ∙ ground (arith, set_one-count mask b k m one q);
        left = rest.left ∙ omega arith;
      })

-- Page `idx * 32 + i` is bit `i` of word `idx`.
pub page_of_word : (bm : Bitmap) (idx i : ℕ) → i < 32 → page bm (idx * 32 + i) ≡ bm idx i
page_of_word bm idx i h = ap₂ bm (omega arith) (omega arith)

within-word : (idx k m p : ℕ) → p / 32 ≡ idx → within k m (p % 32) ≡ within (idx * 32 + k) m p
within-word idx k m p e = ground arith

within-other : (idx k m p : ℕ) → k + m ≤ 32 → p / 32 ≢ idx → within (idx * 32 + k) m p ≡ false
within-other idx k m p h ne = ground arith

within-join : (a m n c p : ℕ) → m + n ≡ c → (within a m p || within (a + m) n p) ≡ within a c p
within-join a m n c p e = ground arith

within-next :
    (a m c b p : ℕ)
    → m ≤ c
    → (m ≡ c) ⊎ (a + m ≡ b)
    → (within a m p || within b (c - m) p) ≡ within a c p
within-next a m c b p h e = ground arith

page-update_other :
    (bm : Bitmap) (b : Bits) (idx p : ℕ) → p / 32 ≢ idx → page (update bm idx b) p ≡ page bm p
page-update_other bm b idx p ne = ground arith

-- Writing the word that `SetWord` describes sets a run of pages.
page-update :
    (bm : Bitmap) (b : Bits) (idx k m p : ℕ)
    → k + m ≤ 32
    → ((i : ℕ) → i < 32 → b i ≡ (bm idx i || within k m i))
    → page (update bm idx b) p ≡ (page bm p || within (idx * 32 + k) m p)
page-update bm b idx k m p h bits = elim (Bool-cases (p / 32 == idx)) [
  | inl e ↦ rw e (
      bits (p % 32) (omega arith)
      ∙ ap₂ ◌||◌ (ap (λ j. bm j (p % 32)) (sym ((==_iff _ idx).0 e)))
          (within-word idx k m p ((==_iff _ idx).0 e)))
  | inr ne ↦ rw (ne, within-other idx k m p h (ground arith), or-false)
]

-- What `_set_bitmap` leaves: the pages of the run are set, no other page changes, and the count
-- is that of the pages that were clear.
pub record SetPages (bm : Bitmap) (start c nr : ℕ) (out : Bitmap × ℕ) : Type 0 where
  pub bits : (p : ℕ) → page out.0 p ≡ (page bm p || within start c p)
  pub count : out.1 ≡ nr + clear_in (page bm) start c

clear_in-split :
    (f : ℕ → Bool) (a m c : ℕ)
    → m ≤ c
    → clear_in f a c ≡ clear_in f a m + clear_in f (a + m) (c - m)
clear_in-split f a m c h = ap (clear_in f a) (omega arith) ∙ clear_in-add f a m (c - m)

-- The words after `idx` are not written by the round on `idx`.
clear_in-update :
    (bm : Bitmap) (b : Bits) (idx a n : ℕ)
    → (n ≡ 0) ⊎ (a ≡ (idx + 1) * 32)
    → clear_in (page (update bm idx b)) ((idx + 1) * 32 + 0) n ≡ clear_in (page bm) a n
clear_in-update bm b idx a n (inl e) = clear_in-cong _ (page bm) _ a n (λ i p. absurd (omega arith))
clear_in-update bm b idx a n (inr e) = clear_in-cong _ (page bm) _ a n λ i p.
    page-update_other bm b idx ((idx + 1) * 32 + 0 + i) (omega arith) ∙ ap (page bm) (omega arith)

-- One round, and the rounds that follow it.
SetPages-join :
    (bm : Bitmap) (b : Bits) (idx k m c left nr nr' : ℕ) (out : Bitmap × ℕ)
    → m ≤ c
    → k + m ≤ 32
    → (m ≡ c) ⊎ (k + m ≡ 32)
    → left ≡ c - m
    → ((i : ℕ) → i < 32 → b i ≡ (bm idx i || within k m i))
    → nr' ≡ nr + clear_in (bm idx) k m
    → SetPages (update bm idx b) ((idx + 1) * 32 + 0) left nr' out
    → SetPages bm (idx * 32 + k) c nr out
SetPages-join bm b idx k m c left nr nr' out p q r l bits count rest =
    let next : (m ≡ c) ⊎ (idx * 32 + k + m ≡ (idx + 1) * 32 + 0) = ground arith in
    let start : (left ≡ 0) ⊎ (idx * 32 + k + m ≡ (idx + 1) * 32) = ground arith in
    let here =
      clear_in-cong (bm idx) (page bm) k (idx * 32 + k) m
        (λ i h. sym (page_of_word bm idx (k + i) (omega arith)) ∙ ap (page bm) (omega arith)) in
    let split = clear_in-split (page bm) (idx * 32 + k) m c p in
    let later = clear_in-update bm b idx (idx * 32 + k + m) left start in
    let fit : clear_in (page bm) (idx * 32 + k + m) left
        ≡ clear_in (page bm) (idx * 32 + k + m) (c - m) =
      ap (clear_in (page bm) _) l in
    record {
      bits = λ j.
          rest.bits j
          ∙ ap (λ x. x || within ((idx + 1) * 32 + 0) left j) (page-update bm b idx k m j q bits)
          ∙ or_assoc (page bm j) _ _
          ∙ ap (λ x. page bm j || x)
              (ap (λ n. within (idx * 32 + k) m j || within ((idx + 1) * 32 + 0) n j) l
                ∙ within-next (idx * 32 + k) m c ((idx + 1) * 32 + 0) j p next);
      count = omega (arith, rest.count, here, split, later, fit);
    }

set_words-SetPages :
    (fuel : ℕ) (bm : Bitmap) (idx : ℕ) (mask : Bits) (c nr k : ℕ)
    → IsBit mask k
    → k < 32
    → c ≤ fuel
    → (out : Bitmap × ℕ) × (set_words fuel bm idx mask c nr ≡ some out)
      × SetPages bm (idx * 32 + k) c nr out
unfolding set_words
set_words-SetPages fuel bm idx mask zero nr k one h f =
    ((bm, nr), refl, record { bits = λ p. ground arith; count = unfold clear_in in omega arith })
set_words-SetPages zero bm idx mask (suc c) nr k one h f = absurd (omega arith)
set_words-SetPages (suc fuel) bm idx mask (suc c) nr k one h f =
    let m : ℕ = min (suc c) (32 - k) in
    let r = set_bits (suc c) mask (bm idx) nr in
    let word =
      set_bits-SetWord (suc c) m mask (bm idx) nr k one (omega arith) (omega arith)
        (ground arith) in
    let (out, e, rest) =
      set_words-SetPages fuel (update bm idx r.0) (idx + 1) bit_one r.2 r.1 0 (λ i p. refl)
        (omega arith) (omega (arith, word.left)) in
    (
      out,
      e,
      SetPages-join bm r.0 idx k m (suc c) r.2 nr r.1 out (omega arith) (omega arith) (ground arith)
          word.left word.bits word.count rest,
    )

-- `_set_bitmap` never runs out of its fuel. It sets the pages of the run, changes no other page,
-- and returns how many pages of the run were clear.
pub set_bitmap-SetPages :
    (bm : Bitmap) (pgnum pgcnt : ℕ)
    → (out : Bitmap × ℕ) × (set_bitmap bm pgnum pgcnt ≡ some out) × SetPages bm pgnum pgcnt 0 out
unfolding set_bitmap
set_bitmap-SetPages bm pgnum pgcnt =
    let (out, e, pages) =
      set_words-SetPages pgcnt bm (pgnum / 32) (shl bit_one (pgnum % 32)) pgcnt 0 (pgnum % 32)
        (λ i h. ground arith) (omega arith) (omega arith) in
    (out, e, subst (λ n. SetPages bm n pgcnt 0 out) (omega arith) pages)
