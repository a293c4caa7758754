-- ===== src/TableAllocator/Tests.antt =====
-- The allocator of page tables on concrete memory.
use bez_os.TableAllocator.Release.{release_memory, walk_back}
use bez_os.TableAllocator.Give.{Given, can_allocate_blocks_lem, deallocate_lem}
use bez_os.TableAllocator.Allocate.{Allocated, GivenBack, allocate_lem, deallocate-allocate}
use bez_os.TableAllocator.Defragment.{Defragmented, defragment_lem}
use bez_os.TableAllocator.Free.{IsFreeList}
use bez_os.ControlBlock.{
  sort_blocks, merge_adjacent_blocks, quicksort_inner, quicksort, head, partition, partition_loop,
  partition_step, move_to_result, join_sorted, merge_step, absorb,
}
use bez_os.TableAllocator.{
  allocate_block, defragment, split_block, split_memory, remove_block, add_memory,
}
use bez_os.TableAllocator.Release.{release_memory, release_loop, block_range, overlap_of, walk_back}
use bez_os.Range.{is_after, is_empty, intersection}
use bez_os.Range.Pair.{aligned_out, roundup, rounddown}
use bez_os.Prelude.{ℕ, ◌≡◌, refl, ◌⊎◌, true, Option, none, some, [], ◌∷◌, arith}
use bez_os.ControlBlock.Tests.{three, IsList-three}
use bez_os.Range.{range}
use bez_os.TableAllocator.{PageTableAllocator, allocate, can_allocate_blocks, add_memory}

-- Three free blocks of one page of 16 bytes each.
abbrev three_pages : PageTableAllocator
three_pages = record { memory = three; block_size = 16; front = 48 }

IsFreeList-three : IsFreeList three 48 (48 ∷ 16 ∷ 32 ∷ [])
IsFreeList-three = record {
  list = IsList-three;
  fit = ground arith;
  disjoint = (λ p. ground arith, (λ p. ground arith, (λ p. ground arith, tt)));
}

defragment_lem_example : Defragmented 4 three_pages (48 ∷ 16 ∷ 32 ∷ [])
defragment_lem_example =
    defragment_lem 4 three_pages (48 ∷ 16 ∷ 32 ∷ []) IsFreeList-three (omega arith)

-- No block has two pages before the list is defragmented.
allocate_lem_example : Allocated 4 three_pages (48 ∷ 16 ∷ 32 ∷ []) 2
allocate_lem_example =
    allocate_lem 4 three_pages (48 ∷ 16 ∷ 32 ∷ []) 2 IsFreeList-three (omega arith) (omega arith)
      (omega arith)

deallocate-allocate_example :
    (r : PageTableAllocator) × (block : ℕ) × (allocate 4 three_pages 2 ≡ some (r, block))
    × ((block ≡ 0) ⊎ GivenBack three_pages (48 ∷ 16 ∷ 32 ∷ []) r block 2 0)
deallocate-allocate_example =
    deallocate-allocate 4 three_pages (48 ∷ 16 ∷ 32 ∷ []) 2 0 IsFreeList-three (omega arith)
      (omega arith) (omega arith)

deallocate_lem_example : Given three_pages (48 ∷ 16 ∷ 32 ∷ []) 128 1 0
deallocate_lem_example =
    deallocate_lem three_pages (48 ∷ 16 ∷ 32 ∷ []) 128 1 0 IsFreeList-three (ground arith)
      (λ p. ground arith, IsFreeList-three.disjoint)

can_allocate_blocks_lem_example : can_allocate_blocks 4 three 48 40 ≡ some true
can_allocate_blocks_lem_example =
    can_allocate_blocks_lem 4 three 0 48 (48 ∷ 16 ∷ 32 ∷ []) IsList-three.last 40 IsList-three.chain
      (omega arith) (omega arith)

abbrev taken : Option (PageTableAllocator × ℕ) → ℕ × ℕ
taken none = (0, 0)
taken (some r) = (r.1, r.0.front)

-- A second attempt finds the two pages that the defragmented list has in one block.
allocate_two : taken (allocate 4 three_pages 2) ≡ (32, 16)
unfolding allocate allocate_block defragment split_block split_memory remove_block sort_blocks
    merge_adjacent_blocks quicksort_inner quicksort head partition partition_loop partition_step
    move_to_result join_sorted merge_step absorb
allocate_two = refl

abbrev front_of : Option PageTableAllocator → ℕ
front_of none = 1
front_of (some a) = a.front

-- The release of memory behind all free blocks.
release_behind : front_of (release_memory 8 three_pages (range 128 144)) ≡ 0
unfolding release_memory release_loop block_range overlap_of walk_back defragment is_after is_empty
    intersection sort_blocks merge_adjacent_blocks quicksort_inner quicksort head partition
    partition_loop partition_step move_to_result join_sorted merge_step absorb
release_behind = refl

-- New memory joins the free blocks that it continues.
add_behind : front_of (add_memory 8 three_pages (range 64 80)) ≡ 16
unfolding add_memory defragment aligned_out roundup rounddown sort_blocks merge_adjacent_blocks
    quicksort_inner quicksort head partition partition_loop partition_step move_to_result
    join_sorted merge_step absorb
add_behind = refl
