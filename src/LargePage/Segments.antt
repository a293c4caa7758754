-- ===== src/LargePage/Segments.antt =====
-- How many page tables a range needs.
use bez_os.Range.Pair.{roundup, rounddown}
use bez_os.LargePage.{
  get_covered_segments, max_pages_for_mapping, large_page_size, huge_page_size, pml4_memory_size,
}
use bez_os.Range.{Range, word}
use bez_os.Range.{size}
use bez_os.Prelude.{ℕ, ◌+◌, ◌-◌, ◌*◌, ◌/◌, ◌≤◌, ◌<◌, ◌≡◌, arith}

-- How many segments hold an address of a range that is not empty.
abbrev pub segments : Range → ℕ → ℕ
segments r segment = (r.back - 1) / segment - r.front / segment + 1

covered_2m :
    (r : Range)
    → r.front < r.back
    → r.back < word
    → r.back + 2 * pml4_memory_size ≤ word + r.front
    → get_covered_segments r large_page_size ≡ segments r large_page_size
unfolding get_covered_segments roundup rounddown
covered_2m r lt fits gap = ground arith

covered_1g :
    (r : Range)
    → r.front < r.back
    → r.back < word
    → r.back + 2 * pml4_memory_size ≤ word + r.front
    → get_covered_segments r huge_page_size ≡ segments r huge_page_size
unfolding get_covered_segments roundup rounddown
covered_1g r lt fits gap = ground arith

covered_512g :
    (r : Range)
    → r.front < r.back
    → r.back < word
    → r.back + 2 * pml4_memory_size ≤ word + r.front
    → get_covered_segments r pml4_memory_size ≡ segments r pml4_memory_size
unfolding get_covered_segments roundup rounddown
covered_512g r lt fits gap = ground arith

-- For a range of addresses that is not empty, ends below 2^64 and is shorter than the address space by
-- 1 TiB or more, the number of tables reserved is at least the number of level-3, level-2 and level-1 tables under which an address of the
-- range falls, also where the rounding up of its end wraps to 0, and exceeds it by at most three.
pub max_pages_for_mapping-covers :
    (r : Range)
    → r.front < r.back
    → r.back < word
    → r.back + 2 * pml4_memory_size ≤ word + r.front
    → (segments r pml4_memory_size + segments r huge_page_size + segments r large_page_size
        ≤ max_pages_for_mapping r)
      × (max_pages_for_mapping r
          ≤ segments r pml4_memory_size
            + segments r huge_page_size
            + segments r large_page_size
            + 3)
unfolding max_pages_for_mapping rounddown size
max_pages_for_mapping-covers r lt fits gap =
    rw (covered_2m r lt fits gap, covered_1g r lt fits gap, covered_512g r lt fits gap)
      (ground arith, ground arith)
