-- ===== src/Control/Text.antt =====
-- What `_chkcmd` finds in a text.
use iostash.Prelude.{
  ℕ, ◌≡◌, ◌≢◌, refl, ap, ap₂, sym, ◌∙◌, true, false, ◌==◌, arith, none, some, List, [], ◌∷◌, ◌++◌,
  Bool-cases, Option-cases, inl, inr, ◌↔◌, ==_iff,
}
use iostash.Control.{is_blank, strip, after, skip_spaces, one_word, chkcmd}

-- `cmd` stands in the text, with `rest` behind it.
unfoldable pub Occurs : (cmd line : List ℕ) → Type 0
Occurs cmd line = (pre : List ℕ) × (rest : List ℕ) × (line ≡ pre ++ (cmd ++ rest))

-- A text of blanks, a word without blanks, and the end of a text behind a word.
unfoldable pub AllBlank : List ℕ → Type 0
AllBlank [] = Unit
AllBlank (c ∷ cs) = (is_blank c ≡ true) × AllBlank cs

unfoldable pub NoBlank : List ℕ → Type 0
NoBlank [] = Unit
NoBlank (c ∷ cs) = (is_blank c ≡ false) × NoBlank cs

unfoldable pub IsTail : List ℕ → Type 0
IsTail [] = Unit
IsTail (c ∷ cs) = is_blank c ≡ true

pub strip_self : (cmd rest : List ℕ) → strip cmd (cmd ++ rest) ≡ some rest
unfolding strip
strip_self [] rest = refl
strip_self (c ∷ cs) rest = rw ((==_iff c c).1 refl, strip_self cs rest) refl

never_empty : {c : ℕ} {cs : List ℕ} → (c ∷ cs) ≢ []
never_empty h = ground arith

never_found : {rest : List ℕ} → none ≢ some rest
never_found h = ground arith

pub strip_eq : (cmd line rest : List ℕ) → strip cmd line ≡ some rest → line ≡ cmd ++ rest
unfolding strip
strip_eq [] line rest h = cc h
strip_eq (c ∷ cs) [] rest h = cc h
strip_eq (c ∷ cs) (d ∷ ds) rest h = elim (Bool-cases (c == d)) [
  | inl e ↦ ap₂ ◌∷◌ (sym ((==_iff c d).0 e)) (strip_eq cs ds rest (rw e at h))
  | inr ne ↦ absurd (never_found (rw ne at h))
]

after_here : (cmd line rest : List ℕ) → strip cmd line ≡ some rest → after cmd line ≡ some rest
unfolding after
after_here cmd [] rest h = h
after_here cmd (d ∷ ds) rest h = rw h refl

after_later :
    (cmd : List ℕ) (d : ℕ) (ds : List ℕ)
    → (r : List ℕ) × (after cmd ds ≡ some r)
    → (r : List ℕ) × (after cmd (d ∷ ds) ≡ some r)
unfolding after
after_later cmd d ds (r, h) = elim (Option-cases (strip cmd (d ∷ ds))) [
  | inl e ↦ (r, rw e h)
  | inr (q, e) ↦ (q, rw e refl)
]

found_rest :
    (cmd line rest : List ℕ)
    → after cmd line ≡ some rest
    → (pre : List ℕ) × (line ≡ pre ++ (cmd ++ rest))
unfolding after
found_rest cmd [] rest h = ([], strip_eq cmd [] rest h)
found_rest cmd (d ∷ ds) rest h = elim (Option-cases (strip cmd (d ∷ ds))) [
  | inl e ↦ (let (pre, q) = found_rest cmd ds rest (rw e at h) in (d ∷ pre, ap (λ t. d ∷ t) q))
  | inr (r, e) ↦ ([], strip_eq cmd (d ∷ ds) rest (e ∙ rw e at h))
]

found : (cmd line rest : List ℕ) → after cmd line ≡ some rest → Occurs cmd line
unfolding Occurs
found cmd line rest h = let (pre, q) = found_rest cmd line rest h in (pre, rest, q)

finds : (cmd pre rest : List ℕ) → (r : List ℕ) × (after cmd (pre ++ (cmd ++ rest)) ≡ some r)
finds cmd [] rest = (rest, after_here cmd (cmd ++ rest) rest (strip_self cmd rest))
finds cmd (d ∷ pre) rest = after_later cmd d (pre ++ (cmd ++ rest)) (finds cmd pre rest)

-- A text is searched with success exactly if the command occurs in it.
pub after-Occurs :
    (cmd line : List ℕ) → ((rest : List ℕ) × (after cmd line ≡ some rest)) ↔ Occurs cmd line
unfolding Occurs
after-Occurs cmd line =
    (λ (rest, h). found cmd line rest h, λ (pre, rest, h). rw h (finds cmd pre rest))

pub skip_spaces_lem : (bs cs : List ℕ) → AllBlank bs → skip_spaces (bs ++ cs) ≡ skip_spaces cs
unfolding skip_spaces AllBlank
skip_spaces_lem [] cs h = refl
skip_spaces_lem (b ∷ bs) cs h = rw h.0 (skip_spaces_lem bs cs h.1)

pub one_word_lem :
    (word tail : List ℕ) → NoBlank word → IsTail tail → one_word (word ++ tail) ≡ word
unfolding one_word NoBlank IsTail
one_word_lem [] [] h t = refl
one_word_lem [] (c ∷ cs) h t = rw t refl
one_word_lem (c ∷ word) tail h t = rw (h.0, one_word_lem word tail h.1 t) refl

skip_c : (c : ℕ) (cs : List ℕ) → is_blank c ≡ false → skip_spaces (c ∷ cs) ≡ c ∷ cs
unfolding skip_spaces
skip_c c cs h = rw h refl

-- The two loops split a text into blanks, a word, and what stands behind the word.
pub split_spaces : (l : List ℕ) → (bs : List ℕ) × AllBlank bs × (l ≡ bs ++ skip_spaces l)
unfolding skip_spaces AllBlank
split_spaces [] = ([], tt, refl)
split_spaces (c ∷ cs) = elim (Bool-cases (is_blank c)) [
  | inl e ↦ (let (bs, b, q) = split_spaces cs in (c ∷ bs, (e, b), rw e (ap (λ t. c ∷ t) q)))
  | inr ne ↦ ([], tt, rw ne refl)
]

pub split_word :
    (l : List ℕ) → (tail : List ℕ) × NoBlank (one_word l) × IsTail tail × (l ≡ one_word l ++ tail)
unfolding one_word NoBlank IsTail
split_word [] = ([], tt, tt, refl)
split_word (c ∷ cs) = elim (Bool-cases (is_blank c)) [
  | inl e ↦ (c ∷ cs, rw e tt, e, rw e refl)
  | inr ne ↦
      (let (tail, n, t, q) = split_word cs in (tail, rw ne (ne, n), t, rw ne (ap (λ r. c ∷ r) q)))
]

word_c : (c : ℕ) (cs : List ℕ) → is_blank c ≡ false → one_word (c ∷ cs) ≡ c ∷ one_word cs
unfolding one_word
word_c c cs h = rw h refl

no_word : (l : List ℕ) → one_word (skip_spaces l) ≡ [] → skip_spaces l ≡ []
unfolding skip_spaces one_word
no_word [] h = refl
no_word (c ∷ cs) h = elim (Bool-cases (is_blank c)) [
  | inl e ↦ rw e (no_word cs (rw e at h))
  | inr ne ↦ absurd (never_empty (sym (word_c c cs ne) ∙ ap one_word (sym (skip_c c cs ne)) ∙ h))
]

-- What is behind a command that occurs: blanks, the word that `chkcmd` gives, and the rest.
pub chkcmd-Occurs :
    (cmd line : List ℕ)
    → Occurs cmd line
    → (pre : List ℕ) × (bs : List ℕ) × (path : List ℕ) × (tail : List ℕ) × (line
        ≡ pre ++ (cmd ++ (bs ++ (path ++ tail))))
      × AllBlank bs
      × NoBlank path
      × IsTail tail
      × (path ≡ [] → tail ≡ [])
      × (chkcmd line cmd ≡ some path)
unfolding chkcmd Occurs
chkcmd-Occurs cmd line h =
    let (rest, e) = (after-Occurs cmd line).1 h in
    let (pre, q) = found_rest cmd line rest e in
    let (bs, b, sp) = split_spaces rest in
    let (tail, n, t, wd) = split_word (skip_spaces rest) in
    (
      pre,
      bs,
      one_word (skip_spaces rest),
      tail,
      q ∙ ap (λ r. pre ++ (cmd ++ r)) (sp ∙ ap (λ r. bs ++ r) wd),
      b,
      n,
      t,
      λ empty. sym (wd ∙ ap (λ r. r ++ tail) empty) ∙ no_word rest empty,
      rw e refl,
    )

-- A command at the start of a text gets the word that follows it.
pub chkcmd-word :
    (cmd bs word tail : List ℕ) (c : ℕ)
    → AllBlank bs
    → NoBlank (c ∷ word)
    → IsTail tail
    → chkcmd (cmd ++ (bs ++ (c ∷ (word ++ tail)))) cmd ≡ some (c ∷ word)
unfolding chkcmd NoBlank
chkcmd-word cmd bs word tail c b n t =
    let rest = bs ++ (c ∷ (word ++ tail)) in
    let at_start = after_here cmd (cmd ++ rest) rest (strip_self cmd rest) in
    let skipped : skip_spaces rest ≡ c ∷ (word ++ tail) =
      skip_spaces_lem bs (c ∷ (word ++ tail)) b ∙ skip_c c (word ++ tail) n.0 in
    rw (at_start, skipped, one_word_lem (c ∷ word) tail n t) refl
