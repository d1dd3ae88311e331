-- ===== src/Control/Store.antt =====
-- What a write to `caches` and `targets` does: the commands, and the words that they misread.
use iostash.Prelude.{
  ℕ, ◌≡◌, refl, Bool, Option, none, some, List, [], ◌∷◌, ◌++◌, Option-cases, inl, inr,
}
use iostash.Host.{Host, ◌>>=◌}
use iostash.Host.Ssd.{SsdProbe, ssd_register, ssd_unregister}
use iostash.Host.Hdd.{HddProbe, hdd_register, hdd_unregister}
use iostash.Control.{cmd_add, cmd_rm, after, chkcmd, caches_store, targets_store}
use iostash.Control.Text.{
  Occurs, AllBlank, NoBlank, IsTail, after-Occurs, chkcmd-word, chkcmd-Occurs,
}

-- The line of a command: the command, blanks, a word that starts with `c`, and what stands behind it.
abbrev pub line_of : (cmd bs : List ℕ) → (c : ℕ) → (word tail : List ℕ) → List ℕ
line_of cmd bs c word tail = cmd ++ (bs ++ (c ∷ (word ++ tail)))

-- A line with "add" in it, blanks, a word, and what stands behind it.
abbrev pub line_with : (pre bs word tail : List ℕ) → List ℕ
line_with pre bs word tail = pre ++ (cmd_add ++ (bs ++ (word ++ tail)))

abbrev pub host_of : Option (Bool × Host) → Option Host
host_of r = do (_, w) ← r; some w

no_add : (line : List ℕ) → ¬ Occurs cmd_add line → chkcmd line cmd_add ≡ none
unfolding chkcmd
no_add line h = elim (Option-cases (after cmd_add line)) [
  | inl e ↦ rw e refl
  | inr (r, e) ↦ absurd (h ((after-Occurs cmd_add line).0 (r, e)))
]

no_rm : (line : List ℕ) → ¬ Occurs cmd_rm line → chkcmd line cmd_rm ≡ none
unfolding chkcmd
no_rm line h = elim (Option-cases (after cmd_rm line)) [
  | inl e ↦ rw e refl
  | inr (r, e) ↦ absurd (h ((after-Occurs cmd_rm line).0 (r, e)))
]

module _ (hash : ℕ → ℕ) (ssd_probe : List ℕ → SsdProbe) (hdd_probe : List ℕ → HddProbe)
    (whole : List ℕ → ℕ) (w : Host) where
  -- The two files register the device of `path`, or they unregister it, or they do nothing.
  unfoldable pub Registers : (line path : List ℕ) → Type 0
  Registers line path =
      (caches_store hash ssd_probe line w ≡ host_of (ssd_register hash (ssd_probe path) w))
      × (targets_store hash hdd_probe whole line w ≡ host_of (hdd_register hash (hdd_probe path) w))

  unfoldable pub Unregisters : (line path : List ℕ) → Type 0
  Unregisters line path =
      (caches_store hash ssd_probe line w ≡ ssd_unregister hash (ssd_probe path).lookup w)
      × (targets_store hash hdd_probe whole line w
          ≡ hdd_unregister hash (hdd_probe path).lookup (whole path) w)

  registers : (line path : List ℕ) → chkcmd line cmd_add ≡ some path → Registers line path
  unfolding Registers caches_store targets_store
  registers line path h = (rw h refl, rw h refl)

  unregisters :
      (line path : List ℕ)
      → chkcmd line cmd_add ≡ none
      → chkcmd line cmd_rm ≡ some path
      → Unregisters line path
  unfolding Unregisters caches_store targets_store
  unregisters line path n h = (rw (n, h) refl, rw (n, h) refl)

  -- A line of "add", blanks, and a word without blanks that the line's end or a blank follows makes
  -- `caches_store` and `targets_store` register the device of exactly that word.
  pub store-add :
      (bs word tail : List ℕ) (c : ℕ)
      → AllBlank bs
      → NoBlank (c ∷ word)
      → IsTail tail
      → Registers (line_of cmd_add bs c word tail) (c ∷ word)
  store-add bs word tail c b n t = registers _ _ (chkcmd-word cmd_add bs word tail c b n t)

  -- A line of "rm", blanks, and a word without blanks that the line's end or a blank follows, in which
  -- "add" does not occur, makes `caches_store` and `targets_store` unregister the device of that word.
  pub store-rm :
      (bs word tail : List ℕ) (c : ℕ)
      → AllBlank bs
      → NoBlank (c ∷ word)
      → IsTail tail
      → ¬ Occurs cmd_add (line_of cmd_rm bs c word tail)
      → Unregisters (line_of cmd_rm bs c word tail) (c ∷ word)
  store-rm bs word tail c b n t other =
      unregisters _ _ (no_add _ other) (chkcmd-word cmd_rm bs word tail c b n t)

  -- In any line in which "add" occurs, also one that starts with "rm" and has it in the path, the two
  -- functions register the device whose path is the word behind an "add" and the blanks that follow it;
  -- that word is empty only if the line ends there.
  pub store-Occurs :
      (line : List ℕ)
      → Occurs cmd_add line
      → (pre : List ℕ) × (bs : List ℕ) × (path : List ℕ) × (tail : List ℕ) × (line
          ≡ line_with pre bs path tail)
        × AllBlank bs
        × NoBlank path
        × IsTail tail
        × (path ≡ [] → tail ≡ [])
        × Registers line path
  store-Occurs line h =
      let (pre, bs, path, tail, split, b, n, t, whole_line, run) = chkcmd-Occurs cmd_add line h in
      (pre, bs, path, tail, split, b, n, t, whole_line, registers line path run)

  -- A line in which neither command occurs changes nothing.
  pub store_unknown :
      (line : List ℕ)
      → ¬ Occurs cmd_add line
      → ¬ Occurs cmd_rm line
      → (caches_store hash ssd_probe line w ≡ some w)
        × (targets_store hash hdd_probe whole line w ≡ some w)
  unfolding caches_store targets_store
  store_unknown line a r =
      (rw (no_add line a, no_rm line r) refl, rw (no_add line a, no_rm line r) refl)
