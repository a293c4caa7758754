-- ===== src/LargePage/Tests.antt =====
-- A mapping and a range at concrete inputs.
use bez_os.LargePage.Segments.{max_pages_for_mapping-covers}
use bez_os.Range.{Range, range}
use bez_os.LargePage.Thirds.{Thirds, align_large_range-Thirds}
use bez_os.LargePage.{
  AddressMapping, is_large_page_eligible, max_pages_for_mapping, mapping, align_large_range_head,
  align_large_range_body, align_large_range_tail,
}
use bez_os.Range.Pair.{roundup, rounddown}
use bez_os.Prelude.{◌≤◌, ◌≡◌, refl, true, arith}

-- 6 MiB that start 4 KiB before a multiple of 2 MiB.
abbrev six_megabytes : AddressMapping
six_megabytes = mapping 4190208 8384512 6291456

eligible : is_large_page_eligible six_megabytes ≡ true
unfolding is_large_page_eligible roundup rounddown
eligible = refl

align_large_range-Thirds_example :
    Thirds six_megabytes
      (align_large_range_head six_megabytes)
      (align_large_range_body six_megabytes)
      (align_large_range_tail six_megabytes)
align_large_range-Thirds_example =
    align_large_range-Thirds six_megabytes (omega arith) (omega arith) eligible

-- Three pages, below the last one of the address space.
abbrev top_range : Range
top_range = range 18446744073709535232 18446744073709547520

max_pages_for_mapping-covers_example :
    (3 ≤ max_pages_for_mapping top_range) × (max_pages_for_mapping top_range ≤ 6)
max_pages_for_mapping-covers_example =
    max_pages_for_mapping-covers top_range (omega arith) (omega arith) (omega arith)
