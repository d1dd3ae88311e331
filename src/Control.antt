-- ===== src/Control.antt =====
-- iostash_module.c: the files `caches` and `targets`, through which devices are added and removed.
-- A text is the list of its bytes before the final 0, and `char` is signed, as on x86.
pub mod Text
pub mod Store
pub mod Lifecycle
use iostash.Prelude.{
  ℕ, Bool, ◌||◌, Option, none, some, List, [], ◌∷◌, if◌then◌else◌, ltb, leb, ◌==◌,
}
use iostash.Host.{Host, ◌>>=◌}
use iostash.Host.Ssd.{SsdProbe, ssd_register, ssd_unregister}
use iostash.Host.Hdd.{HddProbe, hdd_register, hdd_unregister}

-- "add" and "rm"
abbrev pub cmd_add : List ℕ
cmd_add = 97 ∷ 100 ∷ 100 ∷ []

abbrev pub cmd_rm : List ℕ
cmd_rm = 114 ∷ 109 ∷ []

-- `c <= ' '` of a `char`: the bytes from 128 are negative.
unfoldable pub is_blank : ℕ → Bool
is_blank c = leb c 32 || leb 128 c

-- What follows `cmd` at the start of a text.
unfoldable pub strip : (cmd line : List ℕ) → Option (List ℕ)
strip [] line = some line
strip (c ∷ cs) [] = none
strip (c ∷ cs) (d ∷ ds) = if c == d then strip cs ds else none

abbrev pub first_of : {A : Type 0} → Option A → Option A → Option A
first_of (some a) b = some a
first_of none b = b

-- `strstr(cmdline, cmd) + strlen(cmd)`: what follows the first `cmd` in a text.
unfoldable pub after : (cmd line : List ℕ) → Option (List ℕ)
after cmd [] = strip cmd []
after cmd (d ∷ ds) = first_of (strip cmd (d ∷ ds)) (after cmd ds)

-- The two loops of `_chkcmd`.
unfoldable pub skip_spaces : List ℕ → List ℕ
skip_spaces [] = []
skip_spaces (c ∷ cs) = if is_blank c then skip_spaces cs else c ∷ cs

unfoldable pub one_word : List ℕ → List ℕ
one_word [] = []
one_word (c ∷ cs) = if is_blank c then [] else c ∷ one_word cs

-- `_chkcmd`
unfoldable pub chkcmd : (cmdline cmd : List ℕ) → Option (List ℕ)
chkcmd cmdline cmd = chosen (after cmd cmdline)
  where
    chosen : Option (List ℕ) → Option (List ℕ)
    chosen none = none
    chosen (some arg) = some (one_word (skip_spaces arg))

-- The branches of the two functions: what is done for an argument of add, of rm, or for none.
abbrev pub branch : {A : Type 0} → (is_add is_rm : Option (List ℕ)) → (add rm : List ℕ → A) → A → A
branch (some arg) is_rm add rm a = add arg
branch none (some arg) add rm a = rm arg
branch none none add rm a = a

module _ (hash : ℕ → ℕ) where
  -- `caches_store`, with the kernel's answers for each path; a call's own result is not used.
  unfoldable pub caches_store : (List ℕ → SsdProbe) → (buffer : List ℕ) → Host → Option Host
  caches_store probe buffer w =
      branch (chkcmd buffer cmd_add) (chkcmd buffer cmd_rm)
        (λ arg. do (_, w1) ← ssd_register hash (probe arg) w; some w1)
        (λ arg. ssd_unregister hash (probe arg).lookup w) (some w)

  -- `targets_store`, with the whole device that the structure of a path has open.
  unfoldable pub targets_store :
      (List ℕ → HddProbe) → (List ℕ → ℕ) → (buffer : List ℕ) → Host → Option Host
  targets_store probe whole buffer w =
      branch (chkcmd buffer cmd_add) (chkcmd buffer cmd_rm)
        (λ arg. do (_, w1) ← hdd_register hash (probe arg) w; some w1)
        (λ arg. hdd_unregister hash (probe arg).lookup (whole arg) w) (some w)
