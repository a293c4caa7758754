-- ===== src/PageEntry/Tests.antt =====
-- Entries at concrete inputs.
use bez_os.PageEntry.Types.{large_memory_type-set_entry_flags}
use bez_os.PageEntry.{
  PageBuilder, PageFlags, max_physical_address, Entry, set_entry_flags, set_large_memory_type,
  no_entry, MemoryType, large_memory_type, get_memory_pat_index,
}
use bez_os.Prelude.{◌%◌, ◌≤◌, ◌≡◌, refl, true, false, some, arith}

abbrev test_builder : PageBuilder
test_builder = record {
  paddr_bits = 40;
  vaddr_bits = 48;
  layout = record {
    deferred = 2;
    uncached = 3;
    write_combined = 1;
    write_through = 5;
    write_protect = 4;
    write_back = 0;
  };
}

abbrev read_only : PageFlags
read_only = record { read = true; write = false; execute = false; user = true }

low : 2097152 ≤ max_physical_address test_builder
unfolding max_physical_address
low = omega arith

-- Index 5 of a write-through page becomes 1, which selects write combining.
large_memory_type-set_entry_flags_example :
    (e' : Entry) × (set_entry_flags test_builder
        (set_large_memory_type test_builder no_entry MemoryType.write_through)
        read_only
        2097152
      ≡ some e')
    × (e'.address ≡ 2097152)
    × (large_memory_type e' ≡ get_memory_pat_index test_builder.layout MemoryType.write_through % 4)
large_memory_type-set_entry_flags_example =
    large_memory_type-set_entry_flags test_builder no_entry MemoryType.write_through read_only
      2097152 refl low
