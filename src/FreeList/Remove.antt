-- ===== src/FreeList/Remove.antt =====
-- `_freefraglist_rmcdev` takes a device's fragments out of the list, wherever they stand in it.
pub mod Gone
use mathlib.Core.Path.{subst}
use iostash.Prelude.{
  ℕ, zero, suc, ◌+◌, ◌^◌, ◌≤◌, ◌<◌, ◌≡◌, Bool, true, false, not, refl, ap, ◌∙◌, sym, arith, ◌==◌,
  if◌then◌else◌, Option, some, none, List, [], ◌∷◌, length, Bool-cases, inl, inr, ==_iff,
}
use iostash.Word.{sce_maxcdev, u32_sub, pfid_dev}
use iostash.State.{
  Sce, Run, ok, Cdevs, Loc, at, Frag, Cdev, frag_in, frag_at, set_in, set_frag, loc_eq,
}
use iostash.State.Access.{
  frag_in-set_self, frag_in-set_other, eq_of_loc_eq, nr_frag-set_in, has_fragtbl-set_in,
  loc_eq_refl,
}
use iostash.Util.{pfid2frag}
use iostash.Invariant.Slots.{has_scehndl-set_in}
use iostash.Invariant.{IsFrag, Points, Chain, has}
use iostash.Invariant.Pfid.{pfid2frag-Points}
use iostash.Invariant.Chain.{Chain-set_in}
use iostash.FreeList.{rmcdev_loop, unlink}

-- The list less the fragments of a device.
abbrev pub without : ℕ → List Loc → List Loc
without d [] = []
without d (l ∷ ls) = let rest = without d ls in if l.dev == d then rest else l ∷ rest

-- Where the list goes on behind `parent`, or where it starts.
abbrev pub link : Option Loc → Sce → ℕ
link none s = s.freefraglist
link (some p) s = (frag_at s p).next

abbrev pub in_list : Option Loc → List Loc → Bool
in_list none ls = false
in_list (some p) ls = has p ls

abbrev pub is_at : Option Loc → Loc → Bool
is_at none m = false
is_at (some p) m = loc_eq p m

-- The tables have the same fragments, up to `next`.
pub record Relinked (t t' : Cdevs) : Type 0 where
  pub sizes : (d : ℕ) → (t' d).nr_frag ≡ (t d).nr_frag
  pub tables : (d : ℕ) → (t' d).has_fragtbl ≡ (t d).has_fragtbl
  pub handles : (d : ℕ) → (t' d).has_scehndl ≡ (t d).has_scehndl
  pub same : (l : Loc) → frag_in t' l ≡ record (frag_in t l) { next = (frag_in t' l).next }

-- What a run of the loop from `parent` does to the rest `ls` of the list.
pub record Removed (d : ℕ) (parent : Option Loc) (ls : List Loc) (s s' : Sce) : Type 0 where
  pub rest : s' ≡ record s {
    cdevtbl = s'.cdevtbl;
    freefraglist = s'.freefraglist;
    nr_freefrag = s'.nr_freefrag;
  }
  pub tables : Relinked s.cdevtbl s'.cdevtbl
  pub outside : (m : Loc) → is_at parent m ≡ false → has m ls ≡ false → frag_at s' m ≡ frag_at s m
  pub head : (p : Loc) → parent ≡ some p → s'.freefraglist ≡ s.freefraglist
  pub chain : Chain s'.cdevtbl (link parent s') (without d ls)
  pub count : s'.nr_freefrag + length ls ≡ s.nr_freefrag + length (without d ls)

-- What `unlink` does, with `next` what follows.
record Unlinked (parent : Option Loc) (next : ℕ) (s s' : Sce) : Type 0 where
  rest : s' ≡ record s {
    cdevtbl = s'.cdevtbl;
    freefraglist = s'.freefraglist;
    nr_freefrag = s'.nr_freefrag;
  }
  tables : Relinked s.cdevtbl s'.cdevtbl
  outside : (m : Loc) → is_at parent m ≡ false → frag_at s' m ≡ frag_at s m
  head : (p : Loc) → parent ≡ some p → s'.freefraglist ≡ s.freefraglist
  linked : link parent s' ≡ next
  chain :
      (h : ℕ) (ls : List Loc)
      → in_list parent ls ≡ false
      → Chain s.cdevtbl h ls
      → Chain s'.cdevtbl h ls
  count : s'.nr_freefrag ≡ u32_sub s.nr_freefrag 1

Relinked-refl : (t : Cdevs) → Relinked t t
Relinked-refl t = record {
  sizes = λ d. refl;
  tables = λ d. refl;
  handles = λ d. refl;
  same = λ l. refl;
}

Relinked-trans : (t u w : Cdevs) → Relinked t u → Relinked u w → Relinked t w
Relinked-trans t u w p q = record {
  sizes = λ d. q.sizes d ∙ p.sizes d;
  tables = λ d. q.tables d ∙ p.tables d;
  handles = λ d. q.handles d ∙ p.handles d;
  same = λ l. q.same l ∙ ap (λ (f : Frag). record f { next = (frag_in w l).next }) (p.same l);
}

next_only : (x y : Frag) (n : ℕ) → x ≡ record y { next = n } → x ≡ record y { next = x.next }
next_only x y n e = e ∙ ap (λ m. record y { next = m }) (sym (ap (λ f. f.next) e))

Relinked-set_in :
    (t : Cdevs) (p : Loc) (next : ℕ)
    → Relinked t (set_in t p (record (frag_in t p) { next = next }))
Relinked-set_in t p next =
    let f : Frag = record (frag_in t p) { next = next } in
    record {
      sizes = λ d. nr_frag-set_in t p (at d 0) f;
      tables = λ d. has_fragtbl-set_in t p (at d 0) f;
      handles = has_scehndl-set_in t p f;
      same = λ l. elim (Bool-cases (loc_eq p l)) [
        | inl e ↦ next_only (frag_in (set_in t p f) l) (frag_in t l) next (
            ap (frag_in (set_in t p f)) (sym (eq_of_loc_eq p l e))
            ∙ frag_in-set_self t p f
            ∙ ap (λ m. record (frag_in t m) { next = next }) (eq_of_loc_eq p l e))
        | inr ne ↦
            next_only (frag_in (set_in t p f) l) (frag_in t l) (frag_in t l).next
              (frag_in-set_other t p l f ne)
      ];
    }

unlink-Unlinked :
    (parent : Option Loc) (next : ℕ) (s : Sce) → Unlinked parent next s (unlink parent next s)
unfolding unlink
unlink-Unlinked none next s = record {
  rest = refl;
  tables = Relinked-refl s.cdevtbl;
  outside = λ m h. refl;
  head = λ p h. absurd (ground arith);
  linked = refl;
  chain = λ h ls o c. c;
  count = refl;
}
unlink-Unlinked (some p) next s =
    let f : Frag = record (frag_at s p) { next = next } in
    record {
      rest = refl;
      tables = Relinked-set_in s.cdevtbl p next;
      outside = λ m h. frag_in-set_other s.cdevtbl p m f h;
      head = λ q h. refl;
      linked = ap (λ x. x.next) (frag_in-set_self s.cdevtbl p f);
      chain = λ h ls o c. Chain-set_in s.cdevtbl p f h ls o c;
      count = refl;
    }

pub not-has-without :
    (d : ℕ) (a : Loc) (ls : List Loc) → has a ls ≡ false → has a (without d ls) ≡ false
not-has-without d a [] h = refl
not-has-without d a (l ∷ ls) h = elim (Bool-cases (l.dev == d)) [
  | inl e ↦ rw e (not-has-without d a ls (ground arith))
  | inr ne ↦ rw ne (ground (arith, not-has-without d a ls (ground arith)))
]

pub IsFrag-Relinked : (t t' : Cdevs) (l : Loc) → Relinked t t' → IsFrag t l → IsFrag t' l
IsFrag-Relinked t t' l r f = record {
  dev = f.dev;
  table = r.tables l.dev ∙ f.table;
  off = omega (arith, f.off, r.sizes l.dev);
}

pub IsFrag-of_Relinked : (t t' : Cdevs) (l : Loc) → Relinked t t' → IsFrag t' l → IsFrag t l
IsFrag-of_Relinked t t' l r f = record {
  dev = f.dev;
  table = sym (r.tables l.dev) ∙ f.table;
  off = omega (arith, f.off, r.sizes l.dev);
}

pub length-without : (d : ℕ) (ls : List Loc) → length (without d ls) ≤ length ls
length-without d [] = omega arith
length-without d (l ∷ ls) = elim (Bool-cases (l.dev == d)) [
  | inl e ↦ rw e (omega (arith, length-without d ls))
  | inr ne ↦ rw ne (omega (arith, length-without d ls))
]

-- A fragment that is taken out.
taken_out :
    (d : ℕ) (parent : Option Loc) (next : ℕ) (l : Loc) (ls : List Loc) (s s1 s' : Sce)
    → 0 < s.nr_freefrag
    → s.nr_freefrag < 2 ^ 32
    → (l.dev == d) ≡ true
    → Unlinked parent next s s1
    → Removed d parent ls s1 s'
    → Removed d parent (l ∷ ls) s s'
taken_out d parent next l ls s s1 s' some_left small e u r = record {
  rest =
      r.rest
      ∙ ap
          (λ (x : Sce). record x {
            cdevtbl = s'.cdevtbl;
            freefraglist = s'.freefraglist;
            nr_freefrag = s'.nr_freefrag;
          })
          u.rest;
  tables = Relinked-trans s.cdevtbl s1.cdevtbl s'.cdevtbl u.tables r.tables;
  outside = λ m p h. r.outside m p (ground arith) ∙ u.outside m p;
  head = λ p h. r.head p h ∙ u.head p h;
  chain = rw e r.chain;
  count = rw e (omega (arith, r.count, u.count));
}

-- A fragment that stays, with what the loop does behind it.
kept_here :
    (d pf : ℕ) (parent : Option Loc) (l : Loc) (ls : List Loc) (s s' : Sce)
    → (l.dev == d) ≡ false
    → Chain s.cdevtbl pf (l ∷ ls)
    → link parent s ≡ pf
    → in_list parent (l ∷ ls) ≡ false
    → Removed d (some l) ls s s'
    → Removed d parent (l ∷ ls) s s'
kept_here d pf parent l ls s s' ne c linked out r = record {
  rest = r.rest;
  tables = r.tables;
  outside = λ m p h. r.outside m (ground arith) (ground arith);
  head = λ p h. r.head l refl;
  chain = rw ne (
    subst (λ h. Points h l) (sym (link_kept parent out)) (subst (λ h. Points h l) (sym linked) c.0),
    IsFrag-Relinked s.cdevtbl s'.cdevtbl l r.tables c.1,
    ap (λ f. f.fragnum) (r.tables.same l) ∙ c.2,
    not-has-without d l ls c.3,
    r.chain,
  );
  count = rw ne (omega (arith, r.count));
}
  where
    link_kept :
        (parent : Option Loc) → in_list parent (l ∷ ls) ≡ false → link parent s' ≡ link parent s
    link_kept none o = r.head l refl
    link_kept (some p) o = ap (λ f. f.next) (r.outside p (ground arith) (ground arith))

tail_out :
    (parent : Option Loc) (l : Loc) (ls : List Loc)
    → in_list parent (l ∷ ls) ≡ false
    → in_list parent ls ≡ false
tail_out none l ls h = refl
tail_out (some p) l ls h = ground arith

loop_step :
    (k d pf : ℕ) (parent : Option Loc) (s : Sce) (l : Loc) (r : Run (Unit {0}))
    → (pf == 0) ≡ false
    → pfid2frag s pf ≡ some l
    → pfid_dev pf ≡ l.dev
    → (let next = (frag_at s l).next in
        let here = l.dev == d in
        rmcdev_loop k d
          (if here then parent else some l)
          next
          (if here then unlink parent next s else s))
      ≡ r
    → rmcdev_loop (suc k) d parent pf s ≡ r
unfolding rmcdev_loop
loop_step k d pf parent s l r nonzero found dev h = rw (rmcdev_loop, nonzero, found, dev) h

-- The loop ends within a fuel above the length of the rest.
pub rmcdev_loop-Removed :
    (ls : List Loc) (d k pf : ℕ) (parent : Option Loc) (s : Sce)
    → length ls < k
    → length ls ≤ s.nr_freefrag
    → s.nr_freefrag < 2 ^ 32
    → Chain s.cdevtbl pf ls
    → link parent s ≡ pf
    → in_list parent ls ≡ false
    → (s' : Sce) × (rmcdev_loop k d parent pf s ≡ ok tt s') × Removed d parent ls s s'
unfolding rmcdev_loop
rmcdev_loop-Removed ls d zero pf parent s fuel room small c linked out = absurd (omega arith)
rmcdev_loop-Removed [] d (suc k) pf parent s fuel room small c linked out = (
  s,
  rw c refl,
  record {
    rest = refl;
    tables = Relinked-refl s.cdevtbl;
    outside = λ m p h. refl;
    head = λ p h. refl;
    chain = linked ∙ c;
    count = refl;
  },
)
rmcdev_loop-Removed (l ∷ ls) d (suc k) pf parent s fuel room small c linked out =
    let next = (frag_at s l).next in
    let nonzero : (pf == 0) ≡ false = ground (arith, c.0.low) in
    let here = pfid2frag-Points s pf l c.0 c.1 in
    let dev : pfid_dev pf ≡ l.dev = c.0.dev in
    elim (Bool-cases (l.dev == d)) [
      | inl e ↦
          let s1 = unlink parent next s in
          let u = unlink-Unlinked parent next s in
          let (s', run, r) =
            rmcdev_loop-Removed ls d k next parent s1 (omega arith)
              (omega (arith, u.count, room, small)) (omega (arith, u.count, room, small))
              (u.chain next ls (tail_out parent l ls out) c.4) u.linked
              (tail_out parent l ls out) in
          (
            s',
            loop_step k d pf parent s l (ok tt s') nonzero here dev (rw e run),
            taken_out d parent next l ls s s1 s' (omega (arith, room)) small e u r,
          )
      | inr ne ↦
          let (s', run, r) =
            rmcdev_loop-Removed ls d k next (some l) s (omega arith) (omega (arith, room)) small c.4
              refl c.3 in
          (
            s',
            loop_step k d pf parent s l (ok tt s') nonzero here dev (rw ne run),
            kept_here d pf parent l ls s s' ne c linked out r,
          )
    ]
