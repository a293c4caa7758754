-- ===== src/LargePage.antt =====
-- sources/kernel/src/memory/memory.cpp: how a mapping of memory is cut for pages of 2 MiB, and how many
-- page tables one needs. An address is a number below 2^64, and sums wrap.
pub mod Thirds
pub mod Segments
pub mod Tests
use bez_os.Range.{Range, sub_word, add_word, size}
use bez_os.Range.Pair.{roundup, rounddown}
use bez_os.Prelude.{ltb, ◌==◌, if◌then◌else◌, ℕ, ◌+◌, ◌/◌, ◌%◌, Bool, false, not}

-- `x64::kPageSize`, `x64::kLargePageSize`, `x64::kHugePageSize` and `kPml4MemorySize`.
abbrev pub large_page_size : ℕ
large_page_size = 2097152

abbrev pub huge_page_size : ℕ
huge_page_size = 1073741824

abbrev pub pml4_memory_size : ℕ
pml4_memory_size = 549755813888

pub record AddressMapping : Type 0 where
  pub vaddr : ℕ
  pub paddr : ℕ
  pub size : ℕ

abbrev pub mapping : ℕ → ℕ → ℕ → AddressMapping
mapping vaddr paddr size = record { vaddr = vaddr; paddr = paddr; size = size }

pub align_large_range_head : AddressMapping → AddressMapping
align_large_range_head m =
    let aligned = roundup m.vaddr large_page_size in
    mapping m.vaddr m.paddr (sub_word aligned m.vaddr)

pub align_large_range_body : AddressMapping → AddressMapping
align_large_range_body m =
    let head2m = roundup m.vaddr large_page_size in
    let tail2m = rounddown (add_word m.vaddr m.size) large_page_size in
    mapping head2m (add_word m.paddr (sub_word head2m m.vaddr)) (sub_word tail2m head2m)

pub align_large_range_tail : AddressMapping → AddressMapping
align_large_range_tail m =
    let tail2m = rounddown (add_word m.vaddr m.size) large_page_size in
    let size = sub_word (add_word m.vaddr m.size) tail2m in
    mapping tail2m (sub_word (add_word m.paddr m.size) size) size

unfoldable pub is_large_page_eligible : AddressMapping → Bool
is_large_page_eligible m =
    if ltb m.size large_page_size
    then false
    else if not (m.paddr % large_page_size == m.vaddr % large_page_size)
    then false
    else ltb (roundup m.paddr large_page_size) (rounddown (add_word m.paddr m.size) large_page_size)

unfoldable pub get_covered_segments : Range → ℕ → ℕ
get_covered_segments range segment =
    sub_word (roundup range.back segment) (rounddown range.front segment) / segment

-- The sums that wrap at 2^64 are of numbers below 2^53, so they are written as plain sums.
unfoldable pub max_pages_for_mapping : Range → ℕ
max_pages_for_mapping range =
    let count =
      get_covered_segments range pml4_memory_size + get_covered_segments range huge_page_size in
    if ltb (size range) large_page_size
    then (if rounddown range.front large_page_size == rounddown range.back large_page_size
        then count + 2
        else count + 4)
    else count
      + (if range.front % large_page_size == 0 then 0 else 1)
      + (if range.back % large_page_size == 0 then 0 else 1)
      + get_covered_segments range large_page_size
