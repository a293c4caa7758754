-- ===== src/LookupTable/Tests.antt =====
-- A table of two pools.
use bez_os.LookupTable.Find.{find_inside, IsDisjoint, find_start}
use bez_os.LookupTable.{find, LookupTable, invalid}
use bez_os.Prelude.{◌==◌, if◌then◌else◌, ◌+◌, ◌≡◌, inr, arith}

-- Two pages at 4096, mapped at 1048576, and one at 16384, mapped at 2097152.
abbrev two_pools : LookupTable
two_pools = record {
  keys = λ i. if i == 0 then 4096 else 16384;
  values = λ i.
      if i == 0
      then record { vaddr = 1048576; count = 2; refs = 1 }
      else record { vaddr = 2097152; count = 1; refs = 0 };
  capacity = 4;
  count = 2;
}

two_pools-IsDisjoint : IsDisjoint two_pools
two_pools-IsDisjoint = record {
  rising = λ i j lt in_range. ground arith;
  apart = λ i j lt in_range. ground arith;
  fits = λ i lt. ground arith;
  virtual_fits = λ i lt. ground arith;
}

find_inside_example : find two_pools 16387 + 16384 ≡ 2097152 + 16387
find_inside_example =
    find_inside two_pools 16387 1 two_pools-IsDisjoint (omega arith) (omega arith)
      (inr (omega arith)) (omega arith)

find_start_example : find two_pools 16384 ≡ invalid
find_start_example = find_start two_pools 1 two_pools-IsDisjoint (omega arith) (omega arith)
