-- ===== src/Helpers.antt =====
-- helpers.c: the last part of a path. A path is the list of its bytes before the final 0.
use iostash.Prelude.{
  ℕ, zero, suc, ◌+◌, ◌≡◌, refl, ap, ◌∙◌, arith, false, ◌==◌, if◌then◌else◌, Option, none, some,
  List, [], ◌∷◌, ◌++◌, length,
}

-- '/'
abbrev pub slash : ℕ
slash = 47

-- The loop of `_basename`: the index of the last slash, or what it was before.
unfoldable pub last_slash : (i last : ℕ) → (path : List ℕ) → ℕ
last_slash i last [] = last
last_slash i last (c ∷ path) = last_slash (suc i) (if c == slash then i else last) path

-- `&path[n]` as a text; none is a pointer behind the final 0.
unfoldable pub text_at : (n : ℕ) → (path : List ℕ) → Option (List ℕ)
text_at zero path = some path
text_at (suc n) [] = none
text_at (suc n) (c ∷ path) = text_at n path

-- `_basename`
unfoldable pub basename : (path : List ℕ) → Option (List ℕ)
basename path = text_at (suc (last_slash 0 0 path)) path

unfoldable pub NoSlash : List ℕ → Type 0
NoSlash [] = Unit
NoSlash (c ∷ cs) = ((c == slash) ≡ false) × NoSlash cs

last_slash-NoSlash : (i last : ℕ) (name : List ℕ) → NoSlash name → last_slash i last name ≡ last
unfolding last_slash NoSlash
last_slash-NoSlash i last [] h = refl
last_slash-NoSlash i last (c ∷ name) h = rw h.0 (last_slash-NoSlash (suc i) last name h.1)

last_slash_lem :
    (i last : ℕ) (pre name : List ℕ)
    → NoSlash name
    → last_slash i last (pre ++ (slash ∷ name)) ≡ i + length pre
unfolding last_slash
last_slash_lem i last [] name h = last_slash-NoSlash (suc i) i name h ∙ omega arith
last_slash_lem i last (c ∷ pre) name h =
    last_slash_lem (suc i) (if c == slash then i else last) pre name h ∙ omega arith

text_at_lem : (pre name : List ℕ) → text_at (suc (length pre)) (pre ++ (slash ∷ name)) ≡ some name
unfolding text_at
text_at_lem [] name = refl
text_at_lem (c ∷ pre) name = text_at_lem pre name

second : (c : ℕ) (name : List ℕ) → text_at 1 (c ∷ name) ≡ some name
unfolding text_at
second c name = refl

-- With a slash in the path `_basename` is what follows the last one; without one it is the path less
-- its first byte.
pub basename_lem :
    (pre name : List ℕ) (c : ℕ)
    → NoSlash (c ∷ name)
    → (basename (pre ++ (slash ∷ (c ∷ name))) ≡ some (c ∷ name)) × (basename (c ∷ name) ≡ some name)
unfolding basename
basename_lem pre name c h = (
  ap (λ n. text_at (suc n) (pre ++ (slash ∷ (c ∷ name))))
        (last_slash_lem 0 0 pre (c ∷ name) h ∙ omega arith)
      ∙ text_at_lem pre (c ∷ name),
  ap (λ n. text_at (suc n) (c ∷ name)) (last_slash-NoSlash 0 0 (c ∷ name) h) ∙ second c name,
)
