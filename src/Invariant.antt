-- ===== src/Invariant.antt =====
-- What holds of the engine's tables between calls: the free list, and the mapping of fragments.
pub mod Pfid
pub mod Count
pub mod Chain
pub mod Places
pub mod Frame
pub mod Ages
pub mod Tally
pub mod Slots
use iostash.Prelude.{
  ℕ, zero, suc, ◌+◌, ◌-◌, ◌*◌, ◌/◌, ◌%◌, ◌^◌, ◌≤◌, ◌<◌, ◌≡◌, ◌≢◌, Bool, true, false, ◌||◌, some,
  List, [], ◌∷◌, if◌then◌else◌, ◌==◌, length, sum_below,
}
use iostash.Word.{
  sce_maxcdev, sce_maxlun, sce_sctrperfrag, fragnum_withinfreelist, fragnum_free, is_mapped,
  pfid_dev, pfid_off,
}
use iostash.State.{Sce, Cdev, Cdevs, Luns, Lun, Loc, Frag, frag_in, desc_in, loc_eq}
use iostash.Fragment.Laws.{Counted}

-- `l` is a fragment of a cache device.
pub record IsFrag (t : Cdevs) (l : Loc) : Type 0 where
  pub dev : l.dev < sce_maxcdev
  pub table : (t l.dev).has_fragtbl ≡ true
  pub off : l.off < (t l.dev).nr_frag

-- `h` is the id of `l` with FRAGDESC_MAPPED, and perhaps FRAGDESC_VALID, added.
pub record Points (h : ℕ) (l : Loc) : Type 0 where
  pub dev : pfid_dev h ≡ l.dev
  pub off : pfid_off h ≡ l.off
  pub low : 2 ^ 31 ≤ h
  pub high : h < 2 ^ 32

abbrev pub has : Loc → List Loc → Bool
has a [] = false
has a (l ∷ ls) = loc_eq a l || has a ls

-- From the id `h` the `next` fields lead through the distinct free fragments `ls` to the end.
abbrev pub Chain : Cdevs → ℕ → List Loc → Type 0
Chain t h [] = h ≡ 0
Chain t h (l ∷ ls) =
    Points h l
    × IsFrag t l
    × ((frag_in t l).fragnum ≡ fragnum_withinfreelist)
    × (has l ls ≡ false)
    × Chain t (frag_in t l).next ls

abbrev pub is_free : Frag → ℕ
is_free f = if f.fragnum == fragnum_withinfreelist then 1 else 0

-- how many fragments of a device, and of all devices, are marked free
abbrev pub dev_free : Cdev → ℕ
dev_free c = sum_below c.nr_frag (λ o. is_free (c.fragtbl o))

abbrev pub free_count : Cdevs → ℕ
free_count t = sum_below sce_maxcdev (λ d. dev_free (t d))

abbrev pub frag_count : Cdevs → ℕ
frag_count t = sum_below sce_maxcdev (λ d. (t d).nr_frag)

-- From `head` the free list is `ls`: linked up, complete, and counted by `nr_freefrag`; `nr_frag` is
-- the number of all fragments.
pub record FreeListIn (t : Cdevs) (head nr_freefrag nr_frag : ℕ) (ls : List Loc) : Type 0 where
  pub chain : Chain t head ls
  pub complete :
      (l : Loc) → IsFrag t l → (frag_in t l).fragnum ≡ fragnum_withinfreelist → has l ls ≡ true
  pub length : nr_freefrag ≡ length ls
  pub counted : nr_freefrag ≡ free_count t
  pub total : nr_frag ≡ frag_count t
  pub sizes : (d : ℕ) → (t d).nr_frag ≤ 2 ^ 24
  pub tables : (d : ℕ) → 0 < (t d).nr_frag → (t d).has_fragtbl ≡ true

abbrev pub FreeList : Sce → List Loc → Type 0
FreeList s ls = FreeListIn s.cdevtbl s.freefraglist s.nr_freefrag s.nr_frag ls

-- the id in a descriptor is that of `l`
abbrev pub Names : ℕ → Loc → Type 0
Names d l = (pfid_dev d ≡ l.dev) × (pfid_off d ≡ l.off)

-- Fragment `n` of LUN `i` is in use and mapped to `l`.
pub record Holds (u : Luns) (i n : ℕ) (l : Loc) : Type 0 where
  pub index : i < sce_maxlun
  pub map : (u i).has_fragmap ≡ true
  pub handle : (u i).has_scehndl ≡ true
  pub fragnum : n < (u i).nr_frag
  pub mapped : is_mapped (desc_in u i n) ≡ true
  pub names : Names (desc_in u i n) l

-- The descriptor of fragment `n` of LUN `i` names `l`, which points back.
pub record MapsTo (t : Cdevs) (u : Luns) (i n : ℕ) (l : Loc) : Type 0 where
  pub frag : IsFrag t l
  pub names : Names (desc_in u i n) l
  pub lunidx : (frag_in t l).lunidx ≡ i
  pub fragnum : (frag_in t l).fragnum ≡ n

-- The size of a LUN in fragments is that in sectors, rounded up, and below the marks of
-- fragments that are not in use.
pub record Sized (l : Lun) : Type 0 where
  pub small : l.nr_frag ≤ fragnum_free
  pub fits : l.nr_frag * sce_sctrperfrag < l.nr_sctr + sce_sctrperfrag
  pub covers : l.nr_sctr ≤ l.nr_frag * sce_sctrperfrag

-- A mapped descriptor names a fragment whose back pointer is the descriptor's place, and a fragment
-- in use is mapped at the place that its back pointer names.
pub record Mapped (t : Cdevs) (u : Luns) : Type 0 where
  pub forward :
      (i n : ℕ)
      → i < sce_maxlun
      → (u i).has_fragmap ≡ true
      → n < (u i).nr_frag
      → is_mapped (desc_in u i n) ≡ true
      → (l : Loc) × MapsTo t u i n l
  pub backward :
      (l : Loc)
      → IsFrag t l
      → (frag_in t l).fragnum < fragnum_free
      → Holds u (frag_in t l).lunidx (frag_in t l).fragnum l
  pub words : (i n : ℕ) → desc_in u i n < 2 ^ 32
  pub lengths : (i : ℕ) → Sized (u i)

-- A fragment in use counts its pages, and is not linked.
pub record InUse (f : Frag) : Type 0 where
  pub pages : Counted f
  pub next : f.next ≡ 0

abbrev pub AllInUse : Cdevs → Type 0
AllInUse t = (l : Loc) → IsFrag t l → (frag_in t l).fragnum < fragnum_free → InUse (frag_in t l)

abbrev pub is_attached : Cdev → ℕ
is_attached c = if c.has_fragtbl then 1 else 0

abbrev pub cdev_count : Cdevs → ℕ
cdev_count t = sum_below sce_maxcdev (λ d. is_attached (t d))

-- `n` slots have a table, and these are the ones with a handle.
pub record Attached (t : Cdevs) (n : ℕ) : Type 0 where
  pub count : n ≡ cdev_count t
  pub handles : (d : ℕ) → (t d).has_scehndl ≡ (t d).has_fragtbl

-- The engine's invariant, with `ls` the free fragments.
pub record Inv (s : Sce) (ls : List Loc) : Type 0 where
  pub list : FreeList s ls
  pub mapped : Mapped s.cdevtbl s.luntbl
  pub used : AllInUse s.cdevtbl
  pub devices : Attached s.cdevtbl s.nr_cdev
