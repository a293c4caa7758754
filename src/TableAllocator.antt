-- ===== src/TableAllocator.antt =====
-- sources/kernel/include/memory/table_allocator.hpp and sources/kernel/src/memory/table_allocator.cpp: the
-- allocator of page tables, a list of free blocks. `none` is a check of the code that fails, or a loop
-- that runs out of its fuel.
pub mod Free
pub mod Defragment
pub mod Cut
pub mod Take
pub mod Allocate
pub mod Give
pub mod Stats
pub mod Create
pub mod Release
pub mod Tests
use bez_os.Prelude.{
  ltb, leb, ◌==◌, if◌then◌else◌, ◌>>=◌, ℕ, zero, suc, ◌+◌, ◌-◌, ◌*◌, ◌/◌, ◌%◌, ◌^◌, Bool, true,
  false, ◌&&◌, ◌||◌, not, Option, none, some,
}
use bez_os.Range.{Range, add_word, sub_word, assert_then, range}
use bez_os.Range.Pair.{aligned, aligned_out}
use bez_os.ControlBlock.{
  Memory, set_next, set_prev, set_size, head, sort_blocks, merge_adjacent_blocks,
}
use bez_os.Prelude.Store.{write}

abbrev pub mul_word : ℕ → ℕ → ℕ
mul_word a b = (a * b) % 2 ^ 64

-- A control block that the code assigns as a whole.
abbrev pub set_block : Memory → ℕ → (next prev size slide : ℕ) → Memory
set_block m block next prev size slide = record {
  next = write m.next block next;
  prev = write m.prev block prev;
  size = write m.size block size;
  slide = write m.slide block slide;
}

-- What `SplitBlock` makes of the memory.
unfoldable pub split_memory : Memory → (block size : ℕ) → Memory
split_memory m block size =
    let next = add_word block (m.size block - size) in
    let m1 = set_size m block (m.size block - size) in
    let m2 = if m1.next block == 0 then m1 else set_prev m1 (m1.next block) next in
    let m3 = set_next m2 next (m2.next block) in
    let m4 = set_next m3 block next in
    let m5 = set_size (set_prev m4 next block) next size in
    record m5 { slide = write m5.slide next (m5.slide block) }

-- `SplitBlock`: the memory and the new block, the last `size` bytes of the block.
unfoldable pub split_block : Memory → (block size : ℕ) → Option (Memory × ℕ)
split_block m block size =
    assert_then (ltb size (m.size block))
      (split_memory m block size, add_word block (m.size block - size))

unfoldable pub remove_block : Memory → ℕ → Memory
remove_block m block =
    let m1 = if m.prev block == 0 then m else set_next m (m.prev block) (m.next block) in
    if m1.next block == 0 then m1 else set_prev m1 (m1.next block) (m1.prev block)

pub record PageTableAllocator : Type 0 where
  pub memory : Memory
  pub block_size : ℕ
  pub front : ℕ

abbrev pub set_head : PageTableAllocator → ℕ → PageTableAllocator
set_head a block = record a {
  memory = if block == 0 then a.memory else set_prev a.memory block 0;
  front = block;
}

-- `AllocateBlock`: the allocator and the block, null where there is none.
pub allocate_block : PageTableAllocator → ℕ → Option (PageTableAllocator × ℕ)
allocate_block a size =
    let m = a.memory in
    let block = a.front in
    let split = split_block m block size >>= λ (r : Memory × ℕ).
    some (record a { memory = remove_block r.0 r.1 }, r.1) in
    if size == 0
    then some (a, 0)
    else if block == 0
    then some (a, 0)
    else if not (m.prev block == 0)
    then none
    else if ltb (m.size block) size
    then some (a, 0)
    else if m.size block == size
    then some (set_head a (m.next block), block)
    else split

-- `CanAllocateBlocks`
unfoldable pub can_allocate_blocks : ℕ → Memory → (block remaining : ℕ) → Option Bool
can_allocate_blocks zero m block remaining = none
can_allocate_blocks (suc fuel) m block remaining =
    let rest = can_allocate_blocks fuel m (m.next block) (remaining - m.size block) in
    if block == 0 then some false else if leb remaining (m.size block) then some true else rest

-- `PageTableAllocator::defragment`
pub defragment : ℕ → PageTableAllocator → Option PageTableAllocator
defragment fuel a =
    let block = a.front in
    let run = sort_blocks fuel a.memory block >>= λ (m1 : Memory).
    head fuel m1 block >>= λ (first : ℕ). merge_adjacent_blocks fuel m1 first >>= λ (m2 : Memory).
    some (record a { memory = m2; front = first }) in
    if block == 0
    then some a
    else if a.memory.next block == 0
    then some a
    else if a.memory.prev block == 0
    then run
    else none

-- `PageTableAllocator::allocate`: a second attempt follows once the list is defragmented.
pub allocate : ℕ → PageTableAllocator → ℕ → Option (PageTableAllocator × ℕ)
allocate fuel a blocks =
    let size = mul_word blocks a.block_size in
    allocate_block a size >>= λ (r : PageTableAllocator × ℕ).
    let again = defragment fuel r.0 >>= λ (b : PageTableAllocator). allocate_block b size in
    if r.1 == 0 then again else some r

-- `PageTableAllocator::deallocate`
pub deallocate : PageTableAllocator → (block blocks slide : ℕ) → Option PageTableAllocator
deallocate a block blocks slide =
    let m1 = set_block a.memory block a.front 0 (mul_word blocks a.block_size) slide in
    let m2 = if a.front == 0 then m1 else set_prev m1 a.front block in
    assert_then (a.front == 0 || a.memory.prev a.front == 0)
      (record a { memory = m2; front = block })

-- `PteAllocatorStats`
pub record PteAllocatorStats : Type 0 where
  pub block_size : ℕ
  pub free_blocks : ℕ
  pub chain_length : ℕ
  pub largest_block : ℕ

-- The loop of `PageTableAllocator::stats`.
pub stats_loop : ℕ → PageTableAllocator → ℕ → PteAllocatorStats → Option PteAllocatorStats
stats_loop zero a block stats = none
stats_loop (suc fuel) a block stats =
    let block_count = a.memory.size block / a.block_size in
    let rest = stats_loop fuel a (a.memory.next block) (record {
      block_size = stats.block_size;
      free_blocks = (stats.free_blocks + block_count) % 2 ^ 64;
      chain_length = (stats.chain_length + 1) % 2 ^ 64;
      largest_block =
          (if ltb stats.largest_block block_count then block_count else stats.largest_block);
    }) in
    if block == 0 then some stats else rest

pub stats : ℕ → PageTableAllocator → Option PteAllocatorStats
stats fuel a =
    stats_loop fuel a a.front
      (record { block_size = a.block_size; free_blocks = 0; chain_length = 0; largest_block = 0 })

abbrev pub same_range : Range → Range → Bool
same_range r o = r.front == o.front && r.back == o.back

-- `isPageTableAllocatorInputValid`
pub is_page_table_allocator_input_valid : Range → ℕ → Bool
unfolding aligned
is_page_table_allocator_input_valid r block_size =
    ltb 0 block_size
    && leb block_size (sub_word r.back r.front)
    && same_range (aligned r block_size) r

-- `PageTableAllocator::create` of a mapping of `size` bytes at `vaddr`; `none` is `OsStatusInvalidInput`.
-- The overload for a range is the one for a mapping without a slide.
unfoldable pub create : Memory → (vaddr size slide block_size : ℕ) → Option PageTableAllocator
unfolding is_page_table_allocator_input_valid
create m vaddr size slide block_size =
    assert_then (is_page_table_allocator_input_valid (range vaddr (add_word vaddr size)) block_size)
      (record { memory = set_block m vaddr 0 0 size slide; block_size = block_size; front = vaddr })

-- `addMemory`, whose checks of the range are its first two tests.
pub add_memory : ℕ → PageTableAllocator → Range → Option PageTableAllocator
add_memory fuel a r =
    let size = sub_word r.back r.front in
    let m1 = set_block a.memory r.front a.front 0 size 0 in
    let added = defragment fuel (record a { memory = m1; front = r.front }) in
    if size == 0
    then none
    else if not (size % a.block_size == 0)
    then none
    else if not (same_range (aligned_out r a.block_size) r)
    then none
    else added
