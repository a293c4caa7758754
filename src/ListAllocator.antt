-- ===== src/ListAllocator.antt =====
-- The lists of pages that PageTableAllocator of sources/kernel/src/memory/table_allocator.cpp hands out
-- and takes back: AllocateHead, allocateList, allocateExtra and deallocateList. `none` is a check of the
-- code that fails, or a loop that runs out of its fuel.
pub mod Portion
pub mod Loop
pub mod Head
pub mod Whole
pub mod Back
pub mod Tests
use bez_os.Prelude.{
  ltb, ◌==◌, if◌then◌else◌, ◌>>=◌, ℕ, zero, suc, ◌-◌, ◌/◌, Bool, true, false, not, Option, none,
  some,
}
use bez_os.ControlBlock.{Memory}
use bez_os.TableAllocator.{
  PageTableAllocator, split_block, remove_block, set_head, can_allocate_blocks, mul_word,
  deallocate,
}
use bez_os.TableList.{PageTableAllocation, new_list, push_pages, drain, append}

abbrev allocation : Memory → ℕ → PageTableAllocation
allocation m block = record { block = block; slide = m.slide block }

-- The list of the pages of a block that is taken out of the free list.
abbrev list_of : PageTableAllocator → (block size : ℕ) → PageTableAllocator × PageTableAllocation
list_of a block size =
    let (m, list) = new_list a.memory (allocation a.memory block) (size / a.block_size) in
    (record a { memory = m }, list)

-- A block is split at its end, and the new block taken out of the free list.
split_off : PageTableAllocator → (block size : ℕ) → Option (PageTableAllocator × ℕ)
split_off a block size = split_block a.memory block size >>= λ (r : Memory × ℕ).
    some (record a { memory = remove_block r.0 r.1 }, r.1)

-- `AllocateHead`: the allocator, how many pages are still to be found, and the list.
pub allocate_head : PageTableAllocator → ℕ → Option (PageTableAllocator × ℕ × PageTableAllocation)
allocate_head a remaining =
    let m = a.memory in
    let block = a.front in
    let size = mul_word remaining a.block_size in
    let part = split_off a block size >>= λ (r : PageTableAllocator × ℕ).
    (let (b, list) = list_of r.0 r.1 size in some (b, 0, list)) in
    let whole = list_of (set_head a (m.next block)) block size in
    let some_pages = list_of (set_head a (m.next block)) block (m.size block) in
    if not (m.prev block == 0)
    then none
    else if ltb size (m.size block)
    then part
    else if m.size block == size
    then some (whole.0, 0, whole.1)
    else some (some_pages.0, remaining - m.size block / a.block_size, some_pages.1)

-- The pages of a block go to the front of the list.
abbrev push_block :
    PageTableAllocator
    → (list : PageTableAllocation) → (block count : ℕ) → PageTableAllocator × PageTableAllocation
push_block a list block count =
    let (m, list') = push_pages count a.memory list (allocation a.memory block) 0 in
    (record a { memory = m }, list')

-- The loop of `allocateList` at the block `node`.
pub list_loop :
    ℕ
    → PageTableAllocator
    → (node remaining : ℕ) → PageTableAllocation
    → Option (PageTableAllocator × PageTableAllocation)
list_loop zero a node remaining list = none
list_loop (suc fuel) a node remaining list =
    let m = a.memory in
    let size = mul_word remaining a.block_size in
    let part = split_off a node size >>= λ (r : PageTableAllocator × ℕ).
    some (push_block r.0 list r.1 remaining) in
    let b = set_head a (m.next node) in
    let taken = record b { memory = remove_block b.memory node } in
    let next = push_block taken list node (taken.memory.size node / a.block_size) in
    let rest =
      list_loop fuel next.0 next.0.front (remaining - next.0.memory.size node / a.block_size)
        next.1 in
    if remaining == 0
    then some (a, list)
    else if ltb size (m.size node)
    then part
    else if m.size node == size
    then some (push_block taken list node remaining)
    else rest

-- `allocateList`: no list stands for the result `false`.
pub allocate_list :
    ℕ → PageTableAllocator → ℕ → Option (PageTableAllocator × Option PageTableAllocation)
allocate_list fuel a blocks =
    let run = allocate_head a blocks >>= λ (r : PageTableAllocator × ℕ × PageTableAllocation).
    list_loop fuel r.0 r.0.front r.1 r.2 >>= λ (s : PageTableAllocator × PageTableAllocation).
    some (s.0, some s.1) in
    can_allocate_blocks fuel a.memory a.front (mul_word blocks a.block_size) >>= λ (enough : Bool).
    if enough then run else some (a, none)

-- `allocateExtra`: the allocator, the list, and whether there were enough pages.
pub allocate_extra :
    ℕ
    → PageTableAllocator
    → ℕ
    → PageTableAllocation
    → Option (PageTableAllocator × PageTableAllocation × Bool)
allocate_extra fuel a blocks list =
    allocate_list fuel a blocks >>= λ (r : PageTableAllocator × Option PageTableAllocation).
    joined r.0 r.1
  where
    joined :
        PageTableAllocator
        → Option PageTableAllocation
        → Option (PageTableAllocator × PageTableAllocation × Bool)
    joined b none = some (b, list, false)
    joined b (some extra) =
        append fuel b.memory list extra >>= λ (s : Memory × PageTableAllocation).
        some (record b { memory = s.0 }, s.1, true)

-- `deallocateList`
pub deallocate_list : ℕ → PageTableAllocator → PageTableAllocation → Option PageTableAllocator
deallocate_list zero a list = none
deallocate_list (suc fuel) a list =
    let (list', page) = drain a.memory list in
    let next = deallocate a page.block 1 page.slide >>= λ (b : PageTableAllocator).
    deallocate_list fuel b list' in
    if page.block == 0 then some a else next
