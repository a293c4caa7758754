-- ===== src/PageTables.antt =====
-- sources/kernel/include/memory/page_tables.hpp and sources/kernel/src/memory/page_tables.cpp: the page
-- tables of an address space. `none` is a check of the code that fails: it halts the kernel.
pub mod Map
pub mod Walk
pub mod Tree
pub mod Grow
pub mod Kept
pub mod Step
pub mod Place
pub mod Chain
pub mod MapPage
pub mod Near
pub mod Backing
pub mod MapRange
pub mod Mapping
pub mod MapLarge
pub mod LargeEntry
pub mod MapBlock
pub mod MapBlocks
pub mod Filled
pub mod Portions
pub mod WithList
pub mod Whole
pub mod Unmap
pub mod Unmapping
pub mod UnmapRange
pub mod Compact
pub mod Unused
pub mod Compaction
pub mod Tests
use bez_os.LookupTable.{LookupTable, find, release, retain}
use bez_os.Range.{sub_word}
use bez_os.TableList.{PageTableAllocation}
use bez_os.PageEntry.{PageBuilder, Entry, PageFlags, set_entry_flags, no_entry}
use bez_os.Prelude.Store.{write}
use bez_os.Prelude.{if◌then◌else◌, ◌>>=◌, ℕ, ◌/◌, ◌%◌, ◌^◌, not, Option, none, some, List, [], ◌∷◌}

-- `entries` gives the entry at an index of the table that is at a virtual address. `root` is the virtual
-- address of the first table. The list of free tables is passed to the operations that take from it;
-- `freed` has the tables that were handed back to the allocator, the last one first.
pub record PageTables : Type 0 where
  pub builder : PageBuilder
  pub entries : ℕ → ℕ → Entry
  pub cache : LookupTable
  pub root : ℕ
  pub freed : List PageTableAllocation
  pub middle_flags : PageFlags

pub record PageWalkIndices : Type 0 where
  pub pml4e : ℕ
  pub pdpte : ℕ
  pub pdte : ℕ
  pub pte : ℕ

abbrev pub get_address_parts : ℕ → PageWalkIndices
get_address_parts address = record {
  pml4e = address / 2 ^ 39 % 512;
  pdpte = address / 2 ^ 30 % 512;
  pdte = address / 2 ^ 21 % 512;
  pte = address / 2 ^ 12 % 512;
}

abbrev pub as_virtual : PageTables → ℕ → ℕ
as_virtual s address = find s.cache address

abbrev pub as_physical : PageTableAllocation → ℕ
as_physical page = sub_word page.block page.slide

-- An assignment to an entry.
abbrev pub set_entry : PageTables → (table index : ℕ) → Entry → PageTables
set_entry s table index entry = record s {
  entries = write s.entries table (write (s.entries table) index entry);
}

-- `setEntryFlags` of an entry of a table
pub set_flags_at : PageTables → (table index : ℕ) → Entry → PageFlags → ℕ → Option PageTables
set_flags_at s table index entry flags address =
    set_entry_flags s.builder entry flags address >>= λ (e : Entry).
    some (set_entry s table index e)

pub deallocate : PageTables → (vaddr paddr : ℕ) → PageTables
deallocate s vaddr paddr = record s {
  freed = record { block = vaddr; slide = sub_word paddr vaddr } ∷ s.freed;
  cache = release s.cache paddr;
}

-- The list as the pages that it links. `next` zeroes the page it takes.
pub claim_list_entry :
    PageTables
    → List PageTableAllocation
    → Option (PageTableAllocation × PageTables × List PageTableAllocation)
claim_list_entry s [] = none
claim_list_entry s (page ∷ buffer) = some (
  page,
  record s {
    entries = write s.entries page.block (λ i. no_entry);
    cache = retain s.cache (as_physical page);
  },
  buffer,
)

-- A new table for the entry at an index of a table.
pub new_table :
    PageTables
    → (table index : ℕ) → List PageTableAllocation
    → Option (ℕ × PageTables × List PageTableAllocation)
new_table s table index buffer =
    claim_list_entry s buffer
    >>= λ ((page, s', rest) : PageTableAllocation × PageTables × List PageTableAllocation).
        set_flags_at s' table index (s'.entries table index) s.middle_flags (as_physical page)
        >>= λ (s'' : PageTables). some (page.block, s'', rest)

-- `getPageMap3` and `getPageMap2`: the table under an entry of one level up.
pub get_page_map :
    PageTables
    → (table index : ℕ) → List PageTableAllocation
    → Option (ℕ × PageTables × List PageTableAllocation)
get_page_map s table index buffer =
    let entry = s.entries table index in
    if not entry.present
    then new_table s table index buffer
    else some (as_virtual s entry.address, s, buffer)
