-- ===== src/Invariant/Pfid.antt =====
-- Ids and the fragments that they name.
use iostash.Prelude.{ℕ, ◌^◌, ◌<◌, ◌≡◌, some, arith, lt→ltb}
use iostash.Word.{sce_maxcdev, or_mapped, pfid_dev, pfid_off}
use iostash.State.{Sce, Loc, success}
use iostash.Util.{pfid2frag, isvalidpfid}
use iostash.Invariant.{IsFrag, Points, Names}

-- What `_pfid2frag` finds is a fragment, the one that the id names.
pub pfid2frag-IsFrag :
    (s : Sce) (pf : ℕ) (l : Loc)
    → pfid2frag s pf ≡ some l
    → IsFrag s.cdevtbl l × (pfid_dev pf ≡ l.dev) × (pfid_off pf ≡ l.off)
pfid2frag-IsFrag s pf l e = ground arith

pub pfid2frag-Names :
    (s : Sce) (d : ℕ) (l : Loc) → Names d l → IsFrag s.cdevtbl l → pfid2frag s d ≡ some l
pfid2frag-Names s d l p f =
    rw (p.0, p.1, f.table, lt→ltb l.dev sce_maxcdev f.dev, lt→ltb l.off _ f.off)

pub isvalidpfid-Names :
    (s : Sce) (d : ℕ) (l : Loc) → Names d l → IsFrag s.cdevtbl l → isvalidpfid s d ≡ success
isvalidpfid-Names s d l p f =
    rw (p.0, p.1, f.table, lt→ltb l.dev sce_maxcdev f.dev, lt→ltb l.off _ f.off)

pub pfid2frag-Points :
    (s : Sce) (h : ℕ) (l : Loc) → Points h l → IsFrag s.cdevtbl l → pfid2frag s h ≡ some l
pfid2frag-Points s h l p f =
    rw (p.dev, p.off, f.table, lt→ltb l.dev sce_maxcdev f.dev, lt→ltb l.off _ f.off)

pub Points-or_mapped :
    (pf : ℕ) (l : Loc)
    → pfid_dev pf ≡ l.dev
    → pfid_off pf ≡ l.off
    → pf < 2 ^ 32
    → Points (or_mapped pf) l
Points-or_mapped pf l d o h = omega arith
