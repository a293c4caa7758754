-- ===== src/LookupTable.antt =====
-- sources/kernel/include/memory/detail/mapping_lookup_table.hpp and
-- sources/kernel/src/memory/detail/mapping_lookup_table.cpp: where the pools of page table memory are
-- mapped, in a flat map from physical addresses.
pub mod Find
pub mod Counts
pub mod Tests
use bez_os.Prelude.Store.{write}
use bez_os.TableList.{page_size}
use bez_os.OsStatus.{OsStatus, not_found, invalid_input, success}
use bez_os.Range.{add_word, word, sub_word}
use bez_os.TableAllocator.{mul_word}
use bez_os.LargePage.{AddressMapping, mapping}
use bez_os.FlatMap.{FlatMap, place_of, is_at}
use bez_os.FlatMap
use bez_os.Prelude.{
  ltb, leb, ◌==◌, if◌then◌else◌, ℕ, zero, suc, ◌+◌, ◌-◌, ◌/◌, ◌%◌, ◌^◌, ◌||◌, not, Option, none,
  some,
}

-- `count` and `refs` are numbers of 32 bits.
pub record MapEntry : Type 0 where
  pub vaddr : ℕ
  pub count : ℕ
  pub refs : ℕ

abbrev pub LookupTable : Type 0
LookupTable = FlatMap MapEntry

-- `sm::VirtualAddress::invalid` and `sm::PhysicalAddress::invalid`
abbrev pub invalid : ℕ
invalid = word - 1

pub add_memory : LookupTable → AddressMapping → LookupTable × OsStatus
add_memory cache m =
    FlatMap.insert cache m.paddr
      (record { vaddr = m.vaddr; count = m.size / page_size % 2 ^ 32; refs = 0 })

-- The size of an entry's mapping.
abbrev pub bytes : MapEntry → ℕ
bytes entry = mul_word entry.count page_size

pub remove_memory : LookupTable → AddressMapping → LookupTable × OsStatus
remove_memory cache m = elim (FlatMap.find cache m.paddr) [
  | none ↦ (cache, not_found)
  | some it ↦
      if not (bytes it == m.size) || not (it.vaddr == m.paddr)
      then (cache, invalid_input)
      else ((FlatMap.remove cache m.paddr).0, success)
]

-- The place that `find` looks at.
unfoldable pub find_place : LookupTable → ℕ → ℕ
find_place cache paddr = let it = place_of cache paddr in if it == 0 then it else it - 1

unfoldable pub find : LookupTable → ℕ → ℕ
find cache paddr =
    let key = cache.keys (find_place cache paddr) in
    let entry = cache.values (find_place cache paddr) in
    if FlatMap.is_empty cache
    then invalid
    else if ltb paddr key || leb (add_word key (bytes entry)) paddr
    then invalid
    else sub_word paddr (sub_word key entry.vaddr)

-- The loop of `reclaimMemory` from the place `i` on, with that many places left.
pub reclaim_loop : ℕ → ℕ → LookupTable → Option (LookupTable × AddressMapping)
reclaim_loop zero i cache = none
reclaim_loop (suc left) i cache =
    let rest = reclaim_loop left (i + 1) cache in
    let entry = cache.values i in
    if entry.refs == 0
    then some
        ((FlatMap.remove cache (cache.keys i)).0, mapping entry.vaddr (cache.keys i) (bytes entry))
    else rest

-- `none` stands for OsStatusNotFound.
pub reclaim_memory : LookupTable → Option (LookupTable × AddressMapping)
reclaim_memory cache = reclaim_loop cache.count 0 cache

-- A change through the pointer that `mCache.find` returns.
pub at_found : LookupTable → ℕ → (MapEntry → MapEntry) → LookupTable
at_found cache paddr change =
    let i = place_of cache paddr in
    if is_at cache i paddr
    then record cache { values = write cache.values i (change (cache.values i)) }
    else cache

pub retain : LookupTable → ℕ → LookupTable
retain cache paddr = at_found cache paddr (λ it. record it { refs = (it.refs + 1) % 2 ^ 32 })

pub release : LookupTable → ℕ → LookupTable
release cache paddr =
    at_found cache paddr (λ it. if ltb 0 it.refs then record it { refs = it.refs - 1 } else it)
