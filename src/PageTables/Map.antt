-- ===== src/PageTables/Map.antt =====
-- Mapping memory: `mapRange4k`, `mapRange2m`, `mapRange1g`, `map4k`, `map2m`, `map1g`, `mapWithList`,
-- `verifyMapping`, and the splitting of large pages. `none` is also a loop that runs out of its fuel.
use bez_os.Range.Pair.{rounddown, split, roundup}
use bez_os.Range.{Range, add_word, sub_word, is_empty, range, assert_then, cut}
use bez_os.TableList.{PageTableAllocation, page_size}
use bez_os.LargePage.{
  AddressMapping, large_page_size, huge_page_size, align_large_range_head, align_large_range_tail,
  align_large_range_body, is_large_page_eligible,
}
use bez_os.PageTables.{
  PageTables, set_flags_at, get_address_parts, get_page_map, as_physical, deallocate, set_entry,
  as_virtual, claim_list_entry, new_table,
}
use bez_os.PageEntry.{
  Entry, MemoryType, PageFlags, set_memory_type, set_entry_flags, large_memory_type,
  is_canonical_address, set_large_memory_type,
}
use bez_os.Prelude.{
  ltb, ◌==◌, if◌then◌else◌, ◌>>=◌, ℕ, zero, suc, ◌%◌, Bool, true, false, ◌&&◌, not, Option, none,
  some, List,
}

-- The tables and the list of free ones.
abbrev pub Tables : Type 0
Tables = PageTables × List PageTableAllocation

-- `static_cast` of an index to a MemoryType: the enumerators' values are 0, 1 and 4 to 7. The numbers
-- that are no enumerator's select what the last enumerator selects.
pub cast_memory_type : ℕ → MemoryType
cast_memory_type index =
    if index == 0
    then MemoryType.uncached
    else if index == 1
    then MemoryType.write_combine
    else if index == 4
    then MemoryType.write_through
    else if index == 5
    then MemoryType.write_protect
    else if index == 6
    then MemoryType.write_back
    else MemoryType.uncached_overridable

-- `setMemoryType` and `setEntryFlags` of a pte
abbrev pub set_page :
    PageTables → (table index : ℕ) → PageFlags → MemoryType → ℕ → Option PageTables
set_page s table index flags type paddr =
    set_flags_at s table index (set_memory_type s.builder (s.entries table index) type) flags paddr

-- The loop of `partialRemap2m` from the address `i` on.
pub remap_loop :
    ℕ → PageTables → (pt : ℕ) → Range → (paddr : ℕ) → MemoryType → ℕ → Option PageTables
remap_loop zero s pt range paddr type i = none
remap_loop (suc fuel) s pt range paddr type i =
    let next =
      set_page s pt (get_address_parts i).pte s.middle_flags type
        (add_word paddr (sub_word i range.front)) in
    let rest =
      next >>= λ (s' : PageTables). remap_loop fuel s' pt range paddr type (add_word i page_size) in
    if ltb i range.back then rest else some s

-- A large page has 512 pages, so the loop's last test is the 513th.
pub partial_remap_2m : PageTables → (pt : ℕ) → Range → (paddr : ℕ) → MemoryType → Option PageTables
partial_remap_2m s pt range paddr type =
    let done = remap_loop 513 s pt range paddr type range.front in
    if is_empty range then none else done

-- The entry of a table that takes the place of a large page.
abbrev replace_large : PageTables → (table index : ℕ) → PageTableAllocation → Option PageTables
replace_large s table index page =
    set_entry_flags s.builder (s.entries table index) s.middle_flags (as_physical page)
    >>= λ (e : Entry). some (set_entry s table index (record e { attribute = false }))

-- The pdte is the entry at an index of the table `l2`.
pub split_2m_mapping :
    PageTables → (l2 index : ℕ) → (page erase : Range) → PageTableAllocation → Option PageTables
split_2m_mapping s l2 index page erase table =
    let pde = s.entries l2 index in
    let type = cast_memory_type (large_memory_type pde) in
    let hi_offset = sub_word erase.back page.front in
    assert_then pde.attribute (split page erase) >>= λ (parts : Option (Range × Range)).
    parts >>= λ ((lo, hi) : Range × Range).
    partial_remap_2m s table.block lo pde.address type >>= λ (s' : PageTables).
    partial_remap_2m s' table.block hi (add_word pde.address hi_offset) type
    >>= λ (s'' : PageTables). replace_large s'' l2 index table

pub cut_2m_mapping :
    PageTables → (l2 index : ℕ) → (page erase : Range) → PageTableAllocation → Option PageTables
cut_2m_mapping s l2 index page erase table =
    let pde = s.entries l2 index in
    let type = cast_memory_type (large_memory_type pde) in
    let remaining = cut page erase in
    partial_remap_2m s table.block remaining
      (add_word pde.address (sub_word remaining.front page.front)) type
    >>= λ (s' : PageTables). replace_large s' l2 index table

-- `pt` of `map4k`: the last table of the walk.
unfoldable pub get_page_table :
    PageTables
    → (vaddr l2 index : ℕ) → List PageTableAllocation
    → Option (ℕ × PageTables × List PageTableAllocation)
get_page_table s vaddr l2 index buffer =
    let entry = s.entries l2 index in
    let page = range (rounddown vaddr large_page_size) (roundup vaddr large_page_size) in
    let erase = range vaddr (add_word vaddr page_size) in
    let divided =
      (claim_list_entry s buffer
        >>= λ ((table, s', rest) : PageTableAllocation × PageTables × List PageTableAllocation).
            split_2m_mapping s' l2 index page erase table >>= λ (s'' : PageTables).
            some (table.block, s'', rest)) in
    if not entry.present
    then new_table s l2 index buffer
    else if entry.attribute
    then divided
    else some (as_virtual s entry.address, s, buffer)

abbrev Descent : Type 0
Descent = ℕ × PageTables × List PageTableAllocation

unfoldable pub map4k : Tables → (paddr vaddr : ℕ) → PageFlags → MemoryType → Option Tables
map4k (s, buffer) paddr vaddr flags type =
    let parts = get_address_parts vaddr in
    get_page_map s s.root parts.pml4e buffer >>= λ ((l3, s1, b1) : Descent).
    get_page_map s1 l3 parts.pdpte b1 >>= λ ((l2, s2, b2) : Descent).
    get_page_table s2 vaddr l2 parts.pdte b2 >>= λ ((pt, s3, b3) : Descent).
    set_page s3 pt parts.pte flags type paddr >>= λ (s4 : PageTables). some (s4, b3)

unfoldable pub map2m : Tables → (paddr vaddr : ℕ) → PageFlags → MemoryType → Option Tables
map2m (s, buffer) paddr vaddr flags type =
    let parts = get_address_parts vaddr in
    get_page_map s s.root parts.pml4e buffer >>= λ ((l3, s1, b1) : Descent).
    get_page_map s1 l3 parts.pdpte b1 >>= λ ((l2, s2, b2) : Descent).
    let t2 = s2.entries l2 parts.pdte in
    let s3 =
      if t2.present && not t2.attribute
      then deallocate s2 (as_virtual s2 t2.address) t2.address
      else s2 in
    set_flags_at s3 l2 parts.pdte
      (set_large_memory_type s3.builder (record t2 { attribute = true }) type) flags paddr
    >>= λ (s4 : PageTables). some (s4, b2)

unfoldable pub map1g : Tables → (paddr vaddr : ℕ) → PageFlags → MemoryType → Option Tables
map1g (s, buffer) paddr vaddr flags type =
    let parts = get_address_parts vaddr in
    get_page_map s s.root parts.pml4e buffer >>= λ ((l3, s1, b1) : Descent).
    let t3 = record (s1.entries l3 parts.pdpte) { attribute = true } in
    set_flags_at s1 l3 parts.pdpte (set_large_memory_type s1.builder t3 type) flags paddr
    >>= λ (s2 : PageTables). some (s2, b1)

-- The loop of `mapRange4k`, `mapRange2m` and `mapRange1g` from the offset `i` on.
unfoldable pub map_range :
    (Tables → (paddr vaddr : ℕ) → PageFlags → MemoryType → Option Tables)
    → (step fuel : ℕ) → Tables
    → AddressMapping
    → PageFlags
    → MemoryType
    → ℕ
    → Option Tables
map_range map_one step zero t m flags type i = none
map_range map_one step (suc fuel) t m flags type i =
    let rest = map_one t (add_word m.paddr i) (add_word m.vaddr i) flags type >>= λ (t' : Tables).
    map_range map_one step fuel t' m flags type (add_word i step) in
    if ltb i m.size then rest else some t

unfoldable pub map_range_4k : ℕ → Tables → AddressMapping → PageFlags → MemoryType → Option Tables
map_range_4k fuel t m flags type = map_range map4k page_size fuel t m flags type 0

unfoldable pub map_range_2m : ℕ → Tables → AddressMapping → PageFlags → MemoryType → Option Tables
map_range_2m fuel t m flags type = map_range map2m large_page_size fuel t m flags type 0

pub map_range_1g : ℕ → Tables → AddressMapping → PageFlags → MemoryType → Option Tables
map_range_1g fuel t m flags type = map_range map1g huge_page_size fuel t m flags type 0

unfoldable pub map_with_list : ℕ → Tables → AddressMapping → PageFlags → MemoryType → Option Tables
map_with_list fuel t m flags type =
    let head = align_large_range_head m in
    let tail = align_large_range_tail m in
    let large =
      ((if head.size == 0 then some t else map_range_4k fuel t head flags type) >>= λ (t1 : Tables).
      map_range_2m fuel t1 (align_large_range_body m) flags type >>= λ (t2 : Tables).
      if tail.size == 0 then some t2 else map_range_4k fuel t2 tail flags type) in
    if is_large_page_eligible m
      && ltb (roundup m.paddr large_page_size) (rounddown (add_word m.paddr m.size) large_page_size)
    then large
    else map_range_4k fuel t m flags type

pub verify_mapping : PageTables → AddressMapping → Bool
verify_mapping s m =
    ltb 0 m.size
    && m.size % page_size == 0
    && m.paddr % page_size == 0
    && m.vaddr % page_size == 0
    && is_canonical_address s.builder m.vaddr
