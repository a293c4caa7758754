-- ===== src/LargePage/Thirds.antt =====
-- The head, the body and the tail of a mapping that is to use pages of 2 MiB.
use bez_os.Range.Pair.{roundup, rounddown}
use bez_os.LargePage.{
  AddressMapping, is_large_page_eligible, large_page_size, align_large_range_head,
  align_large_range_body, align_large_range_tail,
}
use bez_os.Range.{word}
use bez_os.Prelude.{◌+◌, ◌%◌, ◌≤◌, ◌<◌, ◌≡◌, refl, true, arith}

-- The values that a large-page cut of a mapping must have.
pub record Thirds (m head body tail : AddressMapping) : Type 0 where
  pub starts : head.vaddr ≡ m.vaddr
  pub head_meets_body : head.vaddr + head.size ≡ body.vaddr
  pub body_meets_tail : body.vaddr + body.size ≡ tail.vaddr
  pub ends : tail.vaddr + tail.size ≡ m.vaddr + m.size
  pub head_offset : head.paddr + m.vaddr ≡ m.paddr + head.vaddr
  pub body_offset : body.paddr + m.vaddr ≡ m.paddr + body.vaddr
  pub tail_offset : tail.paddr + m.vaddr ≡ m.paddr + tail.vaddr
  pub virtual_aligned : body.vaddr % large_page_size ≡ 0
  pub physical_aligned : body.paddr % large_page_size ≡ 0
  pub whole_pages : body.size % large_page_size ≡ 0
  pub not_empty : 0 < body.size
  pub head_short : head.size < large_page_size
  pub tail_short : tail.size < large_page_size

-- A mapping eligible for large pages, which ends 2 MiB or more before the top of both address
-- spaces, is cut into a head, a body and a tail that follow one another without a gap, map with the
-- mapping's own offset, and of which the body is one or more whole aligned large pages and the others
-- are shorter than one.
pub align_large_range-Thirds :
    (m : AddressMapping)
    → m.vaddr + m.size + large_page_size ≤ word
    → m.paddr + m.size + large_page_size ≤ word
    → is_large_page_eligible m ≡ true
    → Thirds m (align_large_range_head m) (align_large_range_body m) (align_large_range_tail m)
unfolding is_large_page_eligible align_large_range_head align_large_range_body
    align_large_range_tail roundup rounddown
align_large_range-Thirds m v p e = record {
  starts = refl;
  head_meets_body = ground arith;
  body_meets_tail = ground arith;
  ends = ground arith;
  head_offset = ground arith;
  body_offset = ground arith;
  tail_offset = ground arith;
  virtual_aligned = ground arith;
  physical_aligned = ground arith;
  whole_pages = ground arith;
  not_empty = ground arith;
  head_short = ground arith;
  tail_short = ground arith;
}
