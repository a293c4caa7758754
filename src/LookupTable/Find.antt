-- ===== src/LookupTable/Find.antt =====
-- Looking up the virtual address of a page table.
use bez_os.FlatMap.Search.{IsSorted, lower_bound-Splits}
use bez_os.TableList.{page_size}
use bez_os.LookupTable.{LookupTable, find_place, word, invalid}
use bez_os.FlatMap
use bez_os.FlatMap.{place_of}
use bez_os.LookupTable.{find}
use bez_os.Prelude.{
  ltb, leb, ◌==◌, Bool-cases, ℕ, suc, ◌+◌, ◌-◌, ◌*◌, ◌≤◌, ◌<◌, ◌≡◌, ◌⊎◌, inl, inr, arith,
}

-- The pools are disjoint, and each lies within the physical and the virtual address space.
pub record IsDisjoint (cache : LookupTable) : Type 0 where
  pub rising : IsSorted cache.keys cache.count
  pub apart :
      (i j : ℕ)
      → i < j
      → j < cache.count
      → cache.keys i + (cache.values i).count * page_size ≤ cache.keys j
  pub fits : (i : ℕ) → i < cache.count → cache.keys i + (cache.values i).count * page_size < word
  pub virtual_fits :
      (i : ℕ) → i < cache.count → (cache.values i).vaddr + (cache.values i).count * page_size < word

-- The place looked at for an address beyond the start of a pool, but not beyond its end, is that pool's.
find_place_lem :
    (cache : LookupTable) (paddr i : ℕ)
    → IsDisjoint cache
    → i < cache.count
    → cache.keys i < paddr
    → paddr < cache.keys i + (cache.values i).count * page_size
    → find_place cache paddr ≡ i
unfolding find_place
find_place_lem cache paddr i valid lt above below =
    let s = lower_bound-Splits cache.keys paddr cache.count valid.rising in
    let it = place_of cache paddr in
    elim (Bool-cases (leb it i)) [
      | inl low ↦ absurd (omega (arith, s.from_there i (ground arith) lt))
      | inr high ↦ elim (Bool-cases (it == suc i)) [
        | inl next ↦ ground arith
        | inr more ↦ absurd (
            omega (
              arith,
              s.before (suc i) (ground (arith, s.within)),
              valid.apart i (suc i) (omega arith) (ground (arith, s.within)),
            ))
      ]
    ]

find_first :
    (cache : LookupTable) → IsDisjoint cache → 0 < cache.count → find_place cache (cache.keys 0) ≡ 0
unfolding find_place
find_first cache valid lt =
    let s = lower_bound-Splits cache.keys (cache.keys 0) cache.count valid.rising in
    elim (Bool-cases (place_of cache (cache.keys 0) == 0)) [
      | inl zero_place ↦ ground arith
      | inr later ↦ absurd (omega (arith, s.before 0 (ground arith)))
    ]

-- What `find` makes of a place that holds a pool.
find_at_place :
    (cache : LookupTable) (paddr i : ℕ)
    → IsDisjoint cache
    → i < cache.count
    → find_place cache paddr ≡ i
    → (cache.keys i ≤ paddr
        → paddr < cache.keys i + (cache.values i).count * page_size
        → find cache paddr + cache.keys i ≡ (cache.values i).vaddr + paddr)
      × (cache.keys i + (cache.values i).count * page_size ≤ paddr → find cache paddr ≡ invalid)
      × (paddr < cache.keys i → find cache paddr ≡ invalid)
unfolding find FlatMap.is_empty
find_at_place cache paddr i valid lt place =
    let fits = valid.fits i lt in
    let virtual = valid.virtual_fits i lt in
    rw place ((λ lo hi. ground arith), (λ over. ground arith), (λ under. ground arith))

-- In disjoint pools of memory, an address beyond the first byte of a pool is found, at the pool's own
-- offset between physical and virtual addresses, and so is the first byte of the first pool.
pub find_inside :
    (cache : LookupTable) (paddr i : ℕ)
    → IsDisjoint cache
    → i < cache.count
    → cache.keys i ≤ paddr
    → (i ≡ 0) ⊎ (cache.keys i < paddr)
    → paddr < cache.keys i + (cache.values i).count * page_size
    → find cache paddr + cache.keys i ≡ (cache.values i).vaddr + paddr
find_inside cache paddr i valid lt lo first hi = elim (Bool-cases (ltb (cache.keys i) paddr)) [
  | inl above ↦
      (find_at_place cache paddr i valid lt
          (find_place_lem cache paddr i valid lt (ground arith) hi)).0
        lo hi
  | inr start ↦
      let same : paddr ≡ cache.keys i = ground arith in
      let zeroth : i ≡ 0 = ground arith in
      (find_at_place cache paddr i valid lt
          (rw (same, zeroth) (find_first cache valid (omega arith)))).0
        lo hi
]

-- The first byte of any pool but the first is not found, if the pools are disjoint.
pub find_start :
    (cache : LookupTable) (i : ℕ)
    → IsDisjoint cache
    → 0 < i
    → i < cache.count
    → find cache (cache.keys i) ≡ invalid
unfolding find_place
find_start cache i valid pos lt =
    let s = lower_bound-Splits cache.keys (cache.keys i) cache.count valid.rising in
    let it = place_of cache (cache.keys i) in
    let at_key : it ≡ i = (elim (Bool-cases (ltb it i)) [
      | inl low ↦ absurd (
          omega (
            arith,
            s.from_there it (omega arith) (ground arith),
            valid.rising it i (ground arith) lt,
          ))
      | inr high ↦ elim (Bool-cases (it == i)) [
        | inl same ↦ ground arith
        | inr above ↦ absurd (omega (arith, s.before i (ground arith)))
      ]
    ]) in
    (find_at_place cache (cache.keys i) (i - 1) valid (omega arith) (ground arith)).1
      (valid.apart (i - 1) i (omega arith) lt)
