-- ===== src/Host/Table.antt =====
-- `_search_ssd`, `_insert_ssd`, `_search_hdd` and `_insert_hdd`: hash tables of lists.
use iostash.Prelude.{
  ℕ, ◌%◌, ◌==◌, ◌||◌, Bool, false, if◌then◌else◌, Option, none, some, List, [], ◌∷◌, update,
}
use iostash.Host.{Host, iostash_maxssd_bckts, iostash_maxhdd_bckts}

-- `list_for_each_entry_rcu`: the first entry whose `dev_t` is the one looked for.
abbrev pub find_dev : (ℕ → ℕ) → ℕ → List ℕ → Option ℕ
find_dev dev d [] = none
find_dev dev d (p ∷ ps) = if dev p == d then some p else find_dev dev d ps

-- `list_del_rcu`
abbrev pub remove : ℕ → List ℕ → List ℕ
remove p [] = []
remove p (q ∷ qs) = if q == p then qs else q ∷ remove p qs

-- Whether an address is in a bucket's list.
abbrev pub mem : ℕ → List ℕ → Bool
mem p [] = false
mem p (q ∷ qs) = q == p || mem p qs

-- the bucket of a device
abbrev pub bucket : (hash : ℕ → ℕ) → (size dev : ℕ) → ℕ
bucket hash size dev = hash dev % size

module _ (hash : ℕ → ℕ) where
  -- `_search_ssd`
  abbrev pub search_ssd : Host → ℕ → Option ℕ
  search_ssd w dev =
      if dev == 0
      then none
      else find_dev (λ p. (w.ssds p).dev_t) dev (w.ssdtbl (bucket hash iostash_maxssd_bckts dev))

  -- `_insert_ssd`; none is the BUG_ON.
  abbrev pub insert_ssd : ℕ → Host → Option Host
  insert_ssd p w =
      let b = bucket hash iostash_maxssd_bckts (w.ssds p).dev_t in
      if (w.ssds p).dev_t == 0
      then none
      else some (record w { ssdtbl = update w.ssdtbl b (p ∷ w.ssdtbl b) })

  -- `list_del_rcu(&ssd->list)`
  abbrev pub delete_ssd : ℕ → Host → Host
  delete_ssd p w =
      let b = bucket hash iostash_maxssd_bckts (w.ssds p).dev_t in
      record w { ssdtbl = update w.ssdtbl b (remove p (w.ssdtbl b)) }

  -- `_search_hdd`
  abbrev pub search_hdd : Host → ℕ → Option ℕ
  search_hdd w dev =
      if dev == 0
      then none
      else find_dev (λ p. (w.hdds p).dev_t) dev (w.hddtbl (bucket hash iostash_maxhdd_bckts dev))

  -- `_insert_hdd`
  abbrev pub insert_hdd : ℕ → Host → Option Host
  insert_hdd p w =
      let b = bucket hash iostash_maxhdd_bckts (w.hdds p).dev_t in
      if (w.hdds p).dev_t == 0
      then none
      else some (record w { hddtbl = update w.hddtbl b (p ∷ w.hddtbl b) })
