-- ===== src/Interface/Config/Dropping.antt =====
-- `_lun_rmcdev` and its calls in `sce_rmcdev`: the descriptors that name a device are cleared.
use mathlib.Core.Path.{subst}
use iostash.Prelude.{
  ℕ, zero, suc, ◌+◌, ◌≤◌, ◌<◌, ◌≡◌, Bool, true, false, ap, ◌∙◌, sym, arith, ◌==◌, if◌then◌else◌,
  Bool-cases, inl, inr, ==_iff, lt→ltb,
}
use iostash.Word.{sce_maxcdev, sce_maxlun}
use iostash.State.{Sce}
use iostash.Lun.{lun_rmcdev, rmcdev_from, drop_desc}
use iostash.Lun.Drop.{
  names_dev, Dropping, Dropping-refl, Dropping-trans, Dropping-clear, Found, Found-Dropping,
  drop_desc-Dropping,
}
use iostash.Interface.Config.{rmcdev_luns}

-- After the loop over a LUN's fragments none of them names the device,
rmcdev_from-Dropping :
    (k from i d : ℕ) (s : Sce)
    → Found d s
    → i < sce_maxlun
    → (s.luntbl i).has_fragmap ≡ true
    → from + k ≤ (s.luntbl i).nr_frag
    → Dropping d s (rmcdev_from k from i d s)
      × ((n : ℕ)
          → from ≤ n
          → n < from + k
          → names_dev (rmcdev_from k from i d s).luntbl i n d ≡ false)
unfolding rmcdev_from
rmcdev_from-Dropping zero from i d s there hi map size =
    (Dropping-refl d s, λ n a b. absurd (omega arith))
rmcdev_from-Dropping (suc k) from i d s there hi map size =
    let s1 = drop_desc i d from s in
    let (w, clear) = drop_desc-Dropping i d from s there hi map (omega arith) in
    let (v, rest) =
      rmcdev_from-Dropping k (suc from) i d s1 (Found-Dropping d s s1 w there) hi
        (ap (λ x. x.has_fragmap) (w.lun i) ∙ map)
        (omega (arith, size, ap (λ x. x.nr_frag) (w.lun i))) in
    (
      Dropping-trans d s s1 _ w v,
      λ n a b. elim (Bool-cases (n == from)) [
        | inl e ↦
            subst (λ m. names_dev (rmcdev_from k (suc from) i d s1).luntbl i m d ≡ false)
              (sym ((==_iff n from).0 e)) (Dropping-clear d s1 _ i from v clear)
        | inr ne ↦ rest n (ground arith) (omega arith)
      ],
    )

one :
    (i d : ℕ) (s : Sce)
    → Found d s
    → d < sce_maxcdev
    → i < sce_maxlun
    → (let s' = if (s.luntbl i).has_fragmap then (lun_rmcdev i d s).1 else s in
        Dropping d s s'
        × ((n : ℕ)
            → (s'.luntbl i).has_fragmap ≡ true
            → n < (s'.luntbl i).nr_frag
            → names_dev s'.luntbl i n d ≡ false))
unfolding lun_rmcdev
one i d s there hd hi = elim (Bool-cases (s.luntbl i).has_fragmap) [
  | inr empty ↦ rw empty (Dropping-refl d s, λ n map hn. absurd (no_map map empty))
  | inl map ↦
      let (w, clear) =
        rmcdev_from-Dropping (s.luntbl i).nr_frag 0 i d s there hi map (omega arith) in
      rw (map, lt→ltb d sce_maxcdev hd)
        (w, λ n m hn. clear n (omega arith) (omega (arith, hn, ap (λ x. x.nr_frag) (w.lun i))))
]
  where
    no_map : {b : Bool} → b ≡ true → b ≡ false → ⊥
    no_map p q = ground arith

-- and after the loop over the LUNs no descriptor of a map does.
pub rmcdev_luns-Dropping :
    (k from d : ℕ) (s : Sce)
    → Found d s
    → d < sce_maxcdev
    → from + k ≤ sce_maxlun
    → (let s' = rmcdev_luns k from d s in
        Dropping d s s'
        × ((i n : ℕ)
            → from ≤ i
            → i < from + k
            → (s'.luntbl i).has_fragmap ≡ true
            → n < (s'.luntbl i).nr_frag
            → names_dev s'.luntbl i n d ≡ false))
unfolding rmcdev_luns
rmcdev_luns-Dropping zero from d s there hd size =
    (Dropping-refl d s, λ i n a b c e. absurd (omega arith))
rmcdev_luns-Dropping (suc k) from d s there hd size =
    let s1 = if (s.luntbl from).has_fragmap then (lun_rmcdev from d s).1 else s in
    let (w, clear) = one from d s there hd (omega arith) in
    let (v, rest) =
      rmcdev_luns-Dropping k (suc from) d s1 (Found-Dropping d s s1 w there) hd (omega arith) in
    (
      Dropping-trans d s s1 _ w v,
      λ i n a b map hn. elim (Bool-cases (i == from)) [
        | inr ne ↦ rest i n (ground arith) (omega arith) map hn
        | inl e ↦
            let here : i ≡ from = (==_iff i from).0 e in
            let s2 = rmcdev_luns k (suc from) d s1 in
            let map1 : (s1.luntbl from).has_fragmap ≡ true =
              sym (ap (λ x. x.has_fragmap) (v.lun from))
              ∙ ap (λ j. (s2.luntbl j).has_fragmap) (sym here)
              ∙ map in
            let hn1 : n < (s1.luntbl from).nr_frag =
              subst (λ x. n < x.nr_frag) (v.lun from)
                (subst (λ j. n < (s2.luntbl j).nr_frag) here hn) in
            subst (λ j. names_dev s2.luntbl j n d ≡ false) (sym here)
              (Dropping-clear d s1 s2 from n v (clear n map1 hn1))
      ],
    )
