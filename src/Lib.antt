-- ===== src/Lib.antt =====
-- iostash: fragments of hard disks cached on fragments of SSDs; the cache engine, and the module that
-- redirects the disks' requests to it.
--
-- The engine keeps a table of cache devices (SSDs), each an array of physical fragments of 1 MB, and
-- a table of LUNs (disks), each an array of descriptors. A physical fragment is in the free list, is
-- mapped to one fragment of one LUN, or is on its way between the two. A read asks the engine where
-- its pages are; a miss is counted in the descriptor and logged; the population daemon picks the
-- hottest miss, gets a free fragment, evicting one by CLOCK if it has to, and fills it; a write marks
-- the pages it touches as invalid.
--
-- The module keeps hash tables of SSDs and of disks. It puts `iostash_mkrequest` into the queue of a
-- registered disk: a read that the engine serves is taken over, cloned for the SSD, and retried at the
-- disk if the SSD fails; every other request goes on to the disk, a write after `sce_invalidate`.
--
-- Files, and the code that each is about (paths from the repository's root):
--   Word, State, State/Access  src/sce.h, src/sce_internal.h: constants, bit fields, structures
--   Util                       src/sce_util.c: ids of physical fragments
--   Fragment, Fragment/*       src/sce_fragment.c: the bitmap of invalid pages of a fragment
--   FreeList, FreeList/Stack   src/sce_freefraglist.c: the list through `frag_t.next`
--   FreeList/Remove, below     the same: a device's fragments taken out of the list
--   Mapping, Mapping/Laws      src/sce_mapping.c: `_map_frag`, `_unmap_frag`
--   Misslog, Misslog/Recent    src/sce_misslog.c: the ring of the most recent misses
--   Eviction, Eviction/Laws    src/sce_eviction.c: CLOCK with a reference counter
--   Cdev, Lun, Lun/Index       src/sce_cachedev.c, src/sce_lun.c
--   Population, Population/*   src/sce_population.c: what to cache, and its life until it is
--   Interface/{Config,Io,Task} src/sce_interface.c: the calls of the other parts of the module
--   Interface/Task/Get         the same: `sce_get4pop` as a whole
--   Interface/Io/*             the same: pages of a request, reads, writes, and a read after a write
--   Interface/Config/*         the same: creation, new LUNs, devices that come and go
--   Interface/Runs             the same: sequences of calls from `sce_create` on
--   Lun/Drop                   src/sce_lun.c: the descriptors of a device that goes
--   Lun/Gc, Mapping/Total      garbage collection of fragments, `_unmap_frag` on every place
--   Host, Host/Table           src/iostash.h, and the tables of src/iostash_hdd.c, src/iostash_ssd.c
--   Host/Ssd, Host/Hdd, below  the same files: registration and removal
--   Host/Pop, Host/Pop/Places  src/iostash_population.c: the sectors of a fragment and of its copy
--   Hook                       src/iostash_iohook.c: requests, the worker and the end of reads
--   Hook/Life, Hook/Life/*     the same: the phases of a read that was taken over
--   Hook/Branches, below       the same: the branches of `iostash_mkrequest`, from request to request
--   Pdm, Pdm/Round, Pdm/Undo   src/pdm.c: the statistics, and a round of the daemon's loop
--   Pdm/Threads                the same: the daemon's threads are started and stopped
--   Control, Control/*         src/iostash_module.c: the files `caches` and `targets`
--   Control/Lifecycle, below   the same: loading and unloading
--   Helpers                    src/helpers.c: the last part of a path
--   Invariant, Invariant/*     what holds between calls: the free list is linked, complete and
--                              counted; descriptors and back pointers agree; counters are exact
--   Prelude/*                  Boolean tests, arrays and lists over native numbers
--   Tests, Tests/*             a run of the whole engine, concrete states, the theorems at them
--
-- A function `_foo` or `sce_foo` is `foo` or `sce_foo`. State is passed explicitly: a command takes
-- the engine's state to a result and a new state, or to `bug` (a `BUG_ON`, a read through NULL or past
-- an array that the code does not guard). Pointers to LUNs, devices and fragments are indices in the
-- tables. Tests for NULL of the engine's pointer itself are left out. A table is a function of the
-- index and its bounds are in the state. A word of a bitmap is a function of the bit.
--
-- Integers have the width of the source wherever it can matter: 16-bit and 32-bit counters wrap, and
-- ids and descriptors are bit fields of 32 bits.
--
-- Loops are structural where the source counts down. The loops over the words of a bitmap take the
-- number of pages as fuel, since every round does at least one page. `evict_loop` counts the rounds as
-- the source does, and is an error when they are used up. `alloc_loop` takes two rounds, since an
-- eviction that succeeds leaves a fragment in the free list that the next round takes. The walk that
-- removes a device from the free list takes the number of fragments.
--
-- The module's code is that for kernels from 4.4 on. What the kernel answers is an argument: a probe for
-- a registration, the memory for a request. `hash_32` is a parameter of the tables. A pointer to an SSD,
-- a disk or an `iostash_bio` is an address, the argument of a function in the module's state; freed
-- memory is `none`, and so is the result of code that reads it. Clones are counted while they are in
-- flight; the end function runs when the device answers.
--
-- A text that is written to a file of the module is the list of its bytes, and `char` is signed. What a
-- path leads to is an argument. Loading and unloading keep a log of what they make and release, with
-- the pointers they pass; the code after a use of lists that are not set up is read as if it returned.
--
-- Memory allocation is a Boolean argument, true if it succeeds. Every call is one step: the locks are
-- not modelled. Not modelled at all: asynchronous write-through (SCE_AWT) and SCE_POPULATION_MRU, which
-- the build leaves off; older kernels; `kfree` on removal; the files that are only read, and the kobjects
-- of the devices; `dm_io` and the block layer; the buffers and the sleeping of src/pdm.c;
-- `hdd_unregister_all`. A removal that waits for requests or references is one step in which nobody else
-- runs: it goes on if there are none, and is `none`, a wait for ever, if there are.
pub mod Prelude
pub mod Word
pub mod State
pub mod Util
pub mod Fragment
pub mod FreeList
pub mod Mapping
pub mod Misslog
pub mod Lun
pub mod Invariant
pub mod Eviction
pub mod Cdev
pub mod Population
pub mod Pdm
pub mod Interface
pub mod Host
pub mod Hook
pub mod Control
pub mod Helpers
mod Tests
