-- ===== src/Util.antt =====
-- sce_util.c: from a physical fragment id to the fragment.
use iostash.Prelude.{ℕ, ◌&&◌, Option, none, some, if◌then◌else◌, ltb}
use iostash.Word.{sce_maxcdev, pfid_dev, pfid_off}
use iostash.State.{Sce, Loc, at, Ret, success, error}

-- `sce_fmap_t`
pub record Fmap : Type 0 where
  pub cdevctx : ℕ
  pub fragnum : ℕ

-- `_pfid2frag`; none is NULL.
abbrev pub pfid2frag : Sce → ℕ → Option Loc
pfid2frag s pf =
    let c = s.cdevtbl (pfid_dev pf) in
    if ltb (pfid_dev pf) sce_maxcdev && (c.has_fragtbl && ltb (pfid_off pf) c.nr_frag)
    then some (at (pfid_dev pf) (pfid_off pf))
    else none

-- what `_pfid2frag` writes through `out_fmap` for the fragment that it finds
abbrev pub fmap_of : Sce → Loc → Fmap
fmap_of s l = record { cdevctx = (s.cdevtbl l.dev).cdevctx; fragnum = l.off }

-- `_isvalidpfid`
abbrev pub isvalidpfid : Sce → ℕ → Ret
isvalidpfid s pf =
    let c = s.cdevtbl (pfid_dev pf) in
    if ltb (pfid_dev pf) sce_maxcdev && (c.has_fragtbl && ltb (pfid_off pf) c.nr_frag)
    then success
    else error
