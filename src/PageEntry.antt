-- ===== src/PageEntry.antt =====
-- sources/kernel/include/arch/paging.hpp, sources/kernel/include/memory/paging.hpp and the flags of
-- sources/kernel/include/memory/memory.hpp: the entries of page tables and the way the kernel builds
-- them. An entry is kept as the bits and the bit fields that the kernel sets.
pub mod Types
pub mod Tests
use bez_os.Prelude.{
  ltb, ◌==◌, if◌then◌else◌, ℕ, ◌+◌, ◌-◌, ◌*◌, ◌/◌, ◌%◌, ◌^◌, Bool, true, false, ◌||◌, not, Option,
  none, some,
}

-- `attribute` is bit 7: it is the third bit of a pte's memory type, and marks a pdte or pdpte as a large
-- page. `address` is the part of the word under the address mask, a multiple of 4096. Bit 63 is
-- `execute_disable`. The accessed and written bits and those above the mask are left out: the kernel
-- does not set them.
pub record Entry : Type 0 where
  pub present : Bool
  pub writeable : Bool
  pub user : Bool
  pub write_through : Bool
  pub cache_disable : Bool
  pub attribute : Bool
  pub address : ℕ
  pub execute_disable : Bool

-- The word 0.
abbrev pub no_entry : Entry
no_entry = record {
  present = false;
  writeable = false;
  user = false;
  write_through = false;
  cache_disable = false;
  attribute = false;
  address = 0;
  execute_disable = false;
}

pub record PageFlags : Type 0 where
  pub read : Bool
  pub write : Bool
  pub execute : Bool
  pub user : Bool

pub data MemoryType : Type 0 where
  uncached : MemoryType
  write_combine : MemoryType
  write_through : MemoryType
  write_protect : MemoryType
  write_back : MemoryType
  uncached_overridable : MemoryType

pub record PageMemoryTypeLayout : Type 0 where
  pub deferred : ℕ
  pub uncached : ℕ
  pub write_combined : ℕ
  pub write_through : ℕ
  pub write_protect : ℕ
  pub write_back : ℕ

unfoldable pub get_memory_pat_index : PageMemoryTypeLayout → MemoryType → ℕ
get_memory_pat_index layout MemoryType.uncached = layout.uncached
get_memory_pat_index layout MemoryType.write_combine = layout.write_combined
get_memory_pat_index layout MemoryType.write_through = layout.write_through
get_memory_pat_index layout MemoryType.write_protect = layout.write_protect
get_memory_pat_index layout MemoryType.write_back = layout.write_back
get_memory_pat_index layout MemoryType.uncached_overridable = layout.deferred

unfoldable pub get_memory_type_of : PageMemoryTypeLayout → ℕ → MemoryType
get_memory_type_of layout index =
    if layout.deferred == index
    then MemoryType.uncached_overridable
    else if layout.uncached == index
    then MemoryType.uncached
    else if layout.write_combined == index
    then MemoryType.write_combine
    else if layout.write_through == index
    then MemoryType.write_through
    else if layout.write_protect == index
    then MemoryType.write_protect
    else if layout.write_back == index
    then MemoryType.write_back
    else MemoryType.uncached_overridable

-- `mAddressMask` has the bits from 12 up to, not including, `paddr_bits`.
pub record PageBuilder : Type 0 where
  pub paddr_bits : ℕ
  pub vaddr_bits : ℕ
  pub layout : PageMemoryTypeLayout

-- A number under the address mask.
unfoldable pub masked : PageBuilder → ℕ → ℕ
masked pm address = address % 2 ^ pm.paddr_bits / 4096 * 4096

-- The mask itself.
unfoldable pub max_physical_address : PageBuilder → ℕ
max_physical_address pm = 2 ^ pm.paddr_bits - 4096

unfoldable pub set_address : PageBuilder → Entry → ℕ → Entry
set_address pm entry address = record entry { address = masked pm address }

-- The bit `n` of a number, given as its value 2 ^ n.
abbrev pub bit : ℕ → ℕ → Bool
bit value n = n / value % 2 == 1

abbrev pub number : Bool → ℕ
number b = if b then 1 else 0

-- `pte::setPatEntry` and `pte::memoryType`, with the third bit at bit 7.
unfoldable pub set_pat_entry : Entry → ℕ → Entry
set_pat_entry entry index = record entry {
  write_through = bit 1 index;
  cache_disable = bit 2 index;
  attribute = bit 4 index;
}

-- The bits 3, 4 and 7 make the bits 0 to 2.
unfoldable pub memory_type : Entry → ℕ
memory_type entry =
    number entry.write_through + 2 * number entry.cache_disable + 4 * number entry.attribute

-- `setPatEntry` and `memoryType` of a pdte or pdpte, with the third bit at bit 12, which lies under the
-- address mask.
unfoldable pub set_large_pat_entry : Entry → ℕ → Entry
set_large_pat_entry entry index = record entry {
  write_through = bit 1 index;
  cache_disable = bit 2 index;
  address = entry.address / 8192 * 8192 + 4096 * number (bit 4 index);
}

unfoldable pub large_memory_type : Entry → ℕ
large_memory_type entry =
    number entry.write_through
    + 2 * number entry.cache_disable
    + 4 * number (bit 4096 entry.address)

-- `PageBuilder::setMemoryType` of a pte, and of a pdte or pdpte.
unfoldable pub set_memory_type : PageBuilder → Entry → MemoryType → Entry
set_memory_type pm entry type = set_pat_entry entry (get_memory_pat_index pm.layout type)

unfoldable pub set_large_memory_type : PageBuilder → Entry → MemoryType → Entry
set_large_memory_type pm entry type =
    set_large_pat_entry entry (get_memory_pat_index pm.layout type)

-- `isCanonicalAddress`: the bits from `vaddr_bits - 1` up are all 0 or all 1.
pub is_canonical_address : PageBuilder → ℕ → Bool
is_canonical_address pm address =
    let unit = 2 ^ (pm.vaddr_bits - 1) in address / unit == 0 || address / unit == 2 ^ 64 / unit - 1

-- `PageTables::setEntryFlags`; `none` is the panic.
unfoldable pub set_entry_flags : PageBuilder → Entry → PageFlags → ℕ → Option Entry
set_entry_flags pm entry flags address =
    if ltb (max_physical_address pm) address
    then none
    else some (record (set_address pm entry address) {
      writeable = flags.write;
      execute_disable = not flags.execute;
      user = flags.user;
      present = true;
    })
