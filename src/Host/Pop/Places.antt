-- ===== src/Host/Pop/Places.antt =====
-- The places of a sector: on the disk, and in the copy on the SSD.
use iostash.Prelude.{
  ℕ, ◌+◌, ◌-◌, ◌%◌, ◌^◌, ◌≤◌, ◌<◌, ◌≡◌, arith, leb, leb→le, Bool-cases, inl, inr, false,
}
use iostash.Word.{sce_sctrperfrag}
use iostash.Host.Pop.{pop_read_sector, pop_read_count, pop_write_sector, clone_sector}

-- On a disk below 2 TiB and an SSD fragment below number 2^21 - 1, a sector `x` of fragment `n` that
-- the population has read is in the copy where a served read of `x` looks for it.
pub clone_sector-copy :
    (n f x : ℕ)
    → n < 2 ^ 21
    → f + 1 < 2 ^ 21
    → pop_read_sector n ≤ x
    → x < pop_read_sector n + sce_sctrperfrag
    → clone_sector f x ≡ pop_write_sector f + (x - pop_read_sector n)
clone_sector-copy n f x a b c d = omega (arith, a, b, c, d)

-- Two fragments of the disk whose numbers differ by 2^21 are read from the same sectors, so the copy
-- that is made for the second one holds the data of the first.
pub pop_read_sector-wrap : (n : ℕ) → pop_read_sector (n + 2 ^ 21) ≡ pop_read_sector n
pop_read_sector-wrap n = omega arith

-- The copy of a fragment number 2^21 - 1 of the SSD is written over the module's header and the
-- first fragments, while a served read looks for it 2^32 sectors further on.
pub clone_sector-wrap :
    (x : ℕ)
    → clone_sector (2 ^ 21 - 1) x ≡ pop_write_sector (2 ^ 21 - 1) + 2 ^ 32 + x % sce_sctrperfrag
clone_sector-wrap x = omega arith

leb→lt : (a b : ℕ) → leb a b ≡ false → b < a
leb→lt a b h = ground arith

-- What the population reads of the last fragment of a disk ends with the disk.
pub pop_read_count-end :
    (n nr_sctr : ℕ)
    → n < 2 ^ 21
    → pop_read_sector n < nr_sctr
    → nr_sctr < 2 ^ 64
    → (pop_read_sector n + pop_read_count n nr_sctr ≤ nr_sctr)
      × (pop_read_count n nr_sctr ≤ sce_sctrperfrag)
      × (0 < pop_read_count n nr_sctr)
pop_read_count-end n nr_sctr a b c =
    let first = pop_read_sector n in
    elim (Bool-cases (leb nr_sctr ((first + sce_sctrperfrag) % 2 ^ 64))) [
      | inl e ↦
          let last = leb→le nr_sctr ((first + sce_sctrperfrag) % 2 ^ 64) e in
          rw e (
            omega (arith, a, b, c, last),
            omega (arith, a, b, c, last),
            omega (arith, a, b, c, last),
          )
      | inr e ↦
          let inner = leb→lt nr_sctr ((first + sce_sctrperfrag) % 2 ^ 64) e in
          rw e (omega (arith, a, b, c, inner), omega arith, omega arith)
    ]
