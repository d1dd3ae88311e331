-- ===== src/Population/Choice.antt =====
-- `_choose4population`: the hottest of the latest misses that is not cached.
use iostash.Prelude.{
  ℕ, zero, suc, ◌+◌, ◌≤◌, ◌<◌, ◌≡◌, Bool, true, false, not, ◌&&◌, arith, if◌then◌else◌, ltb, refl,
  ap, ap₂, ◌∙◌, sym, Bool-cases, inl, inr, ◌⊎◌, Option, some, none, lt→ltb, ltb→lt, ◌==◌, ==_iff,
}
use iostash.Word.{sce_misswindow, is_mapped, fragdesc_data}
use iostash.State.{Sce, Ret, success, error, ok, desc_in}
use iostash.Lun.Index.{lun_isvalididx}
use iostash.Misslog.{misslog_get, misslog_place}
use iostash.Population.{choose_loop, choose4population}

-- The log holds the miss `(lun, fragnum)` at `j`, and it is of a LUN in use.
abbrev pub Entry : Sce → ℕ → ℕ → ℕ → Type 0
Entry s j lun fragnum = misslog_get s j ≡ (success, some (lun, fragnum))

-- The entries from `i` to `j` are all of LUNs in use: the loop gets as far as `j`.
abbrev pub Reached : Sce → ℕ → ℕ → Type 0
Reached s i j = (m : ℕ) → i ≤ m → m ≤ j → (misslog_get s m).0 ≡ success

-- The log is in the bounds of the LUNs' maps.
abbrev pub InBounds : Sce → Type 0
InBounds s = (j lun fragnum : ℕ) → Entry s j lun fragnum → fragnum < (s.luntbl lun).nr_frag

-- A miss that the loop may choose.
pub record Candidate (s : Sce) (i k j lun fragnum : ℕ) : Type 0 where
  pub from : i ≤ j
  pub below : j < i + k
  pub reached : Reached s i j
  pub entry : Entry s j lun fragnum
  pub unmapped : is_mapped (desc_in s.luntbl lun fragnum) ≡ false

abbrev pub heat : Sce → Option (ℕ × ℕ) → ℕ
heat s none = 0
heat s (some p) = fragdesc_data (desc_in s.luntbl p.0 p.1)

-- What the loop returns when it comes with the choice `best`.
pub record Choice (s : Sce) (i k : ℕ) (best out : Option (ℕ × ℕ)) : Type 0 where
  pub kept : heat s best ≤ heat s out
  pub most :
      (j lun fragnum : ℕ)
      → Candidate s i k j lun fragnum
      → heat s (some (lun, fragnum)) ≤ heat s out
  pub member :
      (out ≡ best)
      ⊎ ((j : ℕ) × (lun : ℕ) × (fragnum : ℕ) × (out ≡ some (lun, fragnum))
          × (0 < heat s out)
          × Candidate s i k j lun fragnum)

not-lt : (a b : ℕ) → ltb a b ≡ false → b ≤ a
not-lt a b h = ground (arith, h)

Ret-cases : (r : Ret) → (r ≡ error) ⊎ (r ≡ success)
Ret-cases error = inl refl
Ret-cases success = inr refl

-- what `_misslog_get` returns for an index below the log's size
misslog_get_found :
    (s : Sce) (j : ℕ)
    → ltb j s.misslog_size ≡ true
    → misslog_get s j ≡ (
      lun_isvalididx s (s.misslog_lunidx (misslog_place s j)),
      some (s.misslog_lunidx (misslog_place s j), s.misslog_fragnum (misslog_place s j)),
    )
unfolding misslog_get
misslog_get_found s j e = rw e refl

misslog_get_past :
    (s : Sce) (j : ℕ) → ltb j s.misslog_size ≡ false → misslog_get s j ≡ (error, none)
unfolding misslog_get
misslog_get_past s j e = rw e refl

-- An entry is of a LUN in use, or `_misslog_get` is an error.
pub Entry-cases :
    (s : Sce) (j : ℕ)
    → ((misslog_get s j).0 ≡ error)
      ⊎ ((lun : ℕ) × (fragnum : ℕ) × Entry s j lun fragnum × (lun_isvalididx s lun ≡ success))
Entry-cases s j = elim (Bool-cases (ltb j s.misslog_size)) [
  | inl e ↦
      let place = misslog_place s j in
      let found = misslog_get_found s j e in
      elim (Ret-cases (lun_isvalididx s (s.misslog_lunidx place))) [
        | inl bad ↦ inl (ap (λ p. p.0) found ∙ bad)
        | inr good ↦ inr (
          s.misslog_lunidx place,
          s.misslog_fragnum place,
          found ∙ ap (λ r. (r, some (s.misslog_lunidx place, s.misslog_fragnum place))) good,
          good,
        )
      ]
  | inr ne ↦ inl (ap (λ p. p.0) (misslog_get_past s j ne))
]

-- The loop stops at an error.
Choice-stop :
    (s : Sce) (i k : ℕ) (best : Option (ℕ × ℕ))
    → (misslog_get s i).0 ≡ error
    → Choice s i (suc k) best best
Choice-stop s i k best e = record {
  kept = omega arith;
  most = λ j lun fragnum c. absurd (error_or_success (sym e ∙ c.reached i (omega arith) c.from));
  member = inl refl;
}
  where
    error_or_success : error ≡ success → ⊥
    error_or_success h = cc

Choice-none : (s : Sce) (i : ℕ) (best : Option (ℕ × ℕ)) → Choice s i 0 best best
Choice-none s i best = record {
  kept = omega arith;
  most = λ j lun fragnum c. absurd (omega (arith, c.from, c.below));
  member = inl refl;
}

-- The choice after one more entry: the better one of it and the choice before.
abbrev better : Sce → (lun fragnum : ℕ) → Option (ℕ × ℕ) → Bool
better s lun fragnum best =
    not (is_mapped (desc_in s.luntbl lun fragnum))
    && ltb (heat s best) (heat s (some (lun, fragnum)))

abbrev pick : Sce → (lun fragnum : ℕ) → Option (ℕ × ℕ) → Option (ℕ × ℕ)
pick s lun fragnum best = if better s lun fragnum best then some (lun, fragnum) else best

heat-pick :
    (s : Sce) (lun fragnum : ℕ) (best : Option (ℕ × ℕ))
    → heat s (pick s lun fragnum best)
      ≡ (if better s lun fragnum best then heat s (some (lun, fragnum)) else heat s best)
heat-pick s lun fragnum best = elim (Bool-cases (better s lun fragnum best)) [
  | inl e ↦ rw e refl
  | inr ne ↦ rw ne refl
]

pick-better :
    (s : Sce) (lun fragnum : ℕ) (best : Option (ℕ × ℕ))
    → better s lun fragnum best ≡ true
    → pick s lun fragnum best ≡ some (lun, fragnum)
pick-better s lun fragnum best b = rw b refl

heat_of_better :
    (s : Sce) (lun fragnum : ℕ) (best : Option (ℕ × ℕ))
    → better s lun fragnum best ≡ true
    → heat s best < heat s (some (lun, fragnum))
heat_of_better s lun fragnum best b = ltb→lt _ _ (ground (arith, b))

heat-le_pick :
    (s : Sce) (lun fragnum : ℕ) (best : Option (ℕ × ℕ))
    → (heat s best ≤ heat s (pick s lun fragnum best))
      × (is_mapped (desc_in s.luntbl lun fragnum) ≡ false
          → heat s (some (lun, fragnum)) ≤ heat s (pick s lun fragnum best))
heat-le_pick s lun fragnum best = elim (Bool-cases (better s lun fragnum best)) [
  | inl b ↦
      let gain = heat_of_better s lun fragnum best b in
      let now = ap (heat s) (pick-better s lun fragnum best b) in
      (omega (arith, gain, now), λ free. omega (arith, now))
  | inr nb ↦
      let now : heat s (pick s lun fragnum best) ≡ heat s best = rw nb refl in
      (
        omega (arith, now),
        λ free.
            let less : ltb (heat s best) (heat s (some (lun, fragnum))) ≡ false = rw free at nb in
            omega (arith, now, not-lt _ _ less),
      )
]

module _ (s : Sce) (i k lun fragnum : ℕ) (best out : Option (ℕ × ℕ)) (e : Entry s i lun fragnum)
    (rest : Choice s (suc i) k (pick s lun fragnum best) out) where
  same-Entry : (lun' fragnum' : ℕ) → Entry s i lun' fragnum' → (lun' ≡ lun) × (fragnum' ≡ fragnum)
  same-Entry lun' fragnum' e' = (cc, cc)

  Reached-suc : (j : ℕ) → Reached s i j → Reached s (suc i) j
  Reached-suc j r m a b = r m (omega arith) b

  Reached-pred : (j : ℕ) → Reached s (suc i) j → Reached s i j
  Reached-pred j r m a b = elim (Bool-cases (m == i)) [
    | inl here ↦ ap (λ x. (misslog_get s x).0) ((==_iff m i).0 here) ∙ ap (λ p. p.0) e
    | inr ne ↦ r m (ground arith) b
  ]

  Candidate-here : better s lun fragnum best ≡ true → Candidate s i (suc k) i lun fragnum
  Candidate-here b = record {
    from = omega arith;
    below = omega arith;
    reached = λ m p q. ap (λ x. (misslog_get s x).0) (omega (arith, p, q)) ∙ ap (λ y. y.0) e;
    entry = e;
    unmapped = ground (arith, b);
  }

  Choice-next : Choice s i (suc k) best out
  Choice-next = record {
    kept = omega (arith, rest.kept, (heat-le_pick s lun fragnum best).0);
    most = λ j lun' fragnum' c. elim (Bool-cases (j == i)) [
      | inl here ↦
          let there : Entry s i lun' fragnum' =
            ap (misslog_get s) (sym ((==_iff j i).0 here)) ∙ c.entry in
          let (l, n) = same-Entry lun' fragnum' there in
          let same = ap₂ (λ a b. desc_in s.luntbl a b) l n in
          let free = ap is_mapped (sym same) ∙ c.unmapped in
          omega (arith, ap fragdesc_data same, rest.kept, (heat-le_pick s lun fragnum best).1 free)
      | inr ne ↦ rest.most j lun' fragnum' (record {
        from = ground (arith, c.from);
        below = omega (arith, c.below);
        reached = Reached-suc j c.reached;
        entry = c.entry;
        unmapped = c.unmapped;
      })
    ];
    member = elim rest.member [
      | inl same ↦ elim (Bool-cases (better s lun fragnum best)) [
        | inl b ↦ inr (
          i,
          lun,
          fragnum,
          same ∙ pick-better s lun fragnum best b,
          omega (
            arith,
            ap (heat s) (same ∙ pick-better s lun fragnum best b),
            heat_of_better s lun fragnum best b,
          ),
          Candidate-here b,
        )
        | inr nb ↦ inl (same ∙ rw nb refl)
      ]
      | inr (j, l, n, eq, pos, c) ↦ inr (
        j,
        l,
        n,
        eq,
        pos,
        record {
          from = omega (arith, c.from);
          below = omega (arith, c.below);
          reached = Reached-pred j c.reached;
          entry = c.entry;
          unmapped = c.unmapped;
        },
      )
    ];
  }

-- The loop ends, changes nothing, and makes its choice.
choose_loop-Choice :
    (s : Sce) (k i : ℕ) (best : Option (ℕ × ℕ))
    → InBounds s
    → (out : Option (ℕ × ℕ)) × (choose_loop k i (heat s best) best s ≡ ok out s)
      × Choice s i k best out
unfolding choose_loop
choose_loop-Choice s zero i best v = (best, refl, Choice-none s i best)
choose_loop-Choice s (suc k) i best v = elim (Entry-cases s i) [
  | inl e ↦ (best, rw (e, choose_loop), Choice-stop s i k best e)
  | inr (lun, fragnum, e, good) ↦
      let (out, run, c) = choose_loop-Choice s k (suc i) (pick s lun fragnum best) v in
      (
        out,
        rw
            (
              ap (λ p. p.0) e,
              ap (λ p. p.1) e,
              good,
              lt→ltb fragnum _ (v i lun fragnum e),
              sym (heat-pick s lun fragnum best),
              choose_loop,
            )
            run,
        Choice-next s i k lun fragnum best out e c,
      )
]

-- `_choose4population` ends and changes nothing, if the log is within the LUNs' maps. It looks at the
-- latest misses as far as they are of LUNs in use, at most `SCE_MISSWINDOW` of them. What it chooses is
-- such a miss, not mapped, with a miss count above zero that no other unmapped one of them exceeds; it
-- fails only if all their counts are zero.
pub choose4population-Choice :
    (s : Sce)
    → InBounds s
    → (out : Option (ℕ × ℕ)) × (choose4population s ≡ ok out s) × Choice s 0 sce_misswindow none out
unfolding choose4population
choose4population-Choice s v = choose_loop-Choice s sce_misswindow 0 none v
