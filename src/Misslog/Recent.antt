-- ===== src/Misslog/Recent.antt =====
-- The ring of `_misslog_put` and `_misslog_get` as the list of the most recent misses.
use iostash.Prelude.{
  ℕ, zero, suc, ◌≤◌, ◌<◌, ◌≡◌, Bool, true, false, arith, if◌then◌else◌, ltb, ◌==◌, refl, ap, ◌∙◌,
  List, [], ◌∷◌, Option, some, none, get_elem?, update_self, update_other, ap₂, le→ltb,
}
use iostash.Word.{sce_cachemisslogsize}
use iostash.State.{Sce, Ret, error}
use iostash.Lun.Index.{lun_isvalididx}
use iostash.Misslog.{misslog_put, misslog_get, misslog_place}

-- the head is a place of the ring, and the size is no larger than it
pub record Ring (s : Sce) : Type 0 where
  pub head : s.misslog_head < sce_cachemisslogsize
  pub size : s.misslog_size ≤ sce_cachemisslogsize

-- The answer of `_misslog_get` for an entry.
abbrev pub answer : Sce → Option (ℕ × ℕ) → Ret × Option (ℕ × ℕ)
answer s none = (error, none)
answer s (some e) = (lun_isvalididx s e.0, some e)

-- `_misslog_put` of the entries of a list, the last one first
unfoldable pub put_log : List (ℕ × ℕ) → Sce → Sce
put_log [] s = s
put_log (e ∷ log) s = misslog_put e.0 e.1 (put_log log s)

misslog_put-Ring : (l f : ℕ) (s : Sce) → Ring s → Ring (misslog_put l f s)
unfolding misslog_put
misslog_put-Ring l f s r = record { head = ground (arith, r.head); size = ground (arith, r.size) }

-- what `_misslog_get` returns from a place of the ring
abbrev entry_at : Sce → ℕ → Ret × Option (ℕ × ℕ)
entry_at s i = answer s (some (s.misslog_lunidx i, s.misslog_fragnum i))

module _ (l f : ℕ) (s : Sce) (r : Ring s) where
  place-put_first : misslog_place (misslog_put l f s) 0 ≡ s.misslog_head
  unfolding misslog_put
  place-put_first = ground (arith, r.head)

  place-put_next :
      (i : ℕ) → suc i < 1024 → misslog_place (misslog_put l f s) (suc i) ≡ misslog_place s i
  unfolding misslog_put
  place-put_next i h = ground (arith, r.head)

  place_other : (i : ℕ) → suc i < 1024 → (misslog_place s i == s.misslog_head) ≡ false
  place_other i h = ground (arith, r.head)

  size-put_first : ltb 0 (misslog_put l f s).misslog_size ≡ true
  unfolding misslog_put
  size-put_first = ground (arith, r.size)

  size-put_next :
      (i : ℕ) → suc i < 1024 → ltb (suc i) (misslog_put l f s).misslog_size ≡ ltb i s.misslog_size
  unfolding misslog_put
  size-put_next i h = ground (arith, r.size)

  entry_at-put_first : entry_at (misslog_put l f s) s.misslog_head ≡ answer s (some (l, f))
  unfolding misslog_put
  entry_at-put_first =
      ap₂ (λ a b. answer s (some (a, b))) (update_self s.misslog_lunidx s.misslog_head l)
        (update_self s.misslog_fragnum s.misslog_head f)

  entry_at-put_other :
      (i : ℕ) → (i == s.misslog_head) ≡ false → entry_at (misslog_put l f s) i ≡ entry_at s i
  unfolding misslog_put
  entry_at-put_other i h =
      ap₂ (λ a b. answer s (some (a, b))) (update_other s.misslog_lunidx s.misslog_head i l h)
        (update_other s.misslog_fragnum s.misslog_head i f h)

  misslog_get-put_first : misslog_get (misslog_put l f s) 0 ≡ answer s (some (l, f))
  unfolding misslog_get
  misslog_get-put_first =
      rw (size-put_first) (ap (entry_at (misslog_put l f s)) place-put_first ∙ entry_at-put_first)

  misslog_get-put_next :
      (i : ℕ) → suc i < 1024 → misslog_get (misslog_put l f s) (suc i) ≡ misslog_get s i
  unfolding misslog_get
  misslog_get-put_next i h =
      ap₂ (λ (b : Bool) e. if b then e else (error, none)) (size-put_next i h)
        (ap (entry_at (misslog_put l f s)) (place-put_next i h)
          ∙ entry_at-put_other (misslog_place s i) (place_other i h))

put_log-Ring : (log : List (ℕ × ℕ)) (s : Sce) → Ring s → Ring (put_log log s)
unfolding put_log
put_log-Ring [] s r = r
put_log-Ring (e ∷ log) s r = misslog_put-Ring e.0 e.1 (put_log log s) (put_log-Ring log s r)

-- The log does not say which LUNs are in use.
answer-put_log :
    (log : List (ℕ × ℕ)) (s : Sce) (e : Option (ℕ × ℕ)) → answer (put_log log s) e ≡ answer s e
unfolding put_log misslog_put
answer-put_log [] s e = refl
answer-put_log (x ∷ log) s none = refl
answer-put_log (x ∷ log) s (some e) = answer-put_log log s (some e)

-- After any number of `_misslog_put` on an empty log, `_misslog_get` of `idx` below the size of the
-- ring gives the entry `idx` back from the last one put, with the test of its LUN as the result; if
-- there are not so many, it is an error.
pub misslog_get-put_log :
    (log : List (ℕ × ℕ)) (s : Sce) (idx : ℕ)
    → Ring s
    → s.misslog_size ≡ 0
    → idx < sce_cachemisslogsize
    → misslog_get (put_log log s) idx ≡ answer s (get_elem? log idx)
unfolding put_log
misslog_get-put_log [] s idx r empty h =
    unfold misslog_get in rw (le→ltb idx s.misslog_size (omega arith)) refl
misslog_get-put_log (e ∷ log) s zero r empty h =
    misslog_get-put_first e.0 e.1 (put_log log s) (put_log-Ring log s r)
    ∙ answer-put_log log s (some e)
misslog_get-put_log (e ∷ log) s (suc i) r empty h =
    misslog_get-put_next e.0 e.1 (put_log log s) (put_log-Ring log s r) i h
    ∙ misslog_get-put_log log s i r empty (omega arith)
