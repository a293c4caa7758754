-- ===== src/ControlBlock.antt =====
-- sources/kernel/include/memory/detail/control_block.hpp and
-- sources/kernel/src/memory/detail/control_block.cpp: doubly linked lists of blocks of memory, each with
-- its control block at its start. A pointer is an address, null is 0, and the fields of the control
-- blocks are functions of the address. Loops and recursion take fuel; `none` is a run out of fuel.
pub mod Chain
pub mod Midway
pub mod Partition
pub mod Join
pub mod Rising
pub mod Sort
pub mod Extents
pub mod Merge
pub mod Order
pub mod Spaced
pub mod Compact
pub mod Tests
use bez_os.Prelude.{ltb, ◌==◌, if◌then◌else◌, ◌>>=◌, ℕ, zero, suc, ◌&&◌, Option, none, some}
use bez_os.Prelude.Store.{write}
use bez_os.Range.{add_word}

pub record Memory : Type 0 where
  pub next : ℕ → ℕ
  pub prev : ℕ → ℕ
  pub size : ℕ → ℕ
  pub slide : ℕ → ℕ

abbrev pub set_next : Memory → ℕ → ℕ → Memory
set_next m block value = record m { next = write m.next block value }

abbrev pub set_prev : Memory → ℕ → ℕ → Memory
set_prev m block value = record m { prev = write m.prev block value }

abbrev pub set_size : Memory → ℕ → ℕ → Memory
set_size m block value = record m { size = write m.size block value }

-- `ControlBlock::head`
unfoldable pub head : ℕ → Memory → ℕ → Option ℕ
head zero m block = none
head (suc fuel) m block =
    let rest = head fuel m (m.prev block) in if m.prev block == 0 then some block else rest

-- The part of the loop in `Partition` that moves a block `l` from its list to the front of `result`.
unfoldable pub move_to_result : Memory → (l result : ℕ) → Memory
move_to_result m l result =
    let m1 = if m.prev l == 0 then m else set_next m (m.prev l) (m.next l) in
    let m2 = if m1.next l == 0 then m1 else set_prev m1 (m1.next l) (m1.prev l) in
    let m3 = if result == 0 then set_next m2 l 0 else set_prev (set_next m2 l result) result l in
    set_prev m3 l 0

-- One round of the loop at the block `l`: the memory, `result` and `*lte` after it.
unfoldable pub partition_step : Memory → ℕ → ℕ → ℕ → ℕ → Memory × ℕ × ℕ
partition_step m value l result lte =
    if ltb value l
    then (move_to_result m l result, l, lte)
    else (m, result, (if lte == 0 then l else lte))

-- The loop, up to the values of `*lte` and `*gt`.
unfoldable pub partition_loop : ℕ → Memory → ℕ → ℕ → ℕ → ℕ → Option (Memory × ℕ × ℕ)
partition_loop zero m value l result lte = none
partition_loop (suc fuel) m value l result lte =
    let (m', result', lte') = partition_step m value l result lte in
    let rest = partition_loop fuel m' value (m.next l) result' lte' in
    if l == 0 then some (m, lte, result) else rest

-- `Partition` of a list that is not empty; `*mid` is its first block.
unfoldable pub partition : ℕ → Memory → ℕ → Option (Memory × ℕ × ℕ)
partition fuel m l = partition_loop fuel m l (m.next l) 0 0

-- The end of `QuicksortInner`: the two sorted lists are put before and behind `mid`.
unfoldable pub join_sorted : Memory → (mid lte lte_end gt gt_end : ℕ) → Memory × ℕ × ℕ
join_sorted m mid lte lte_end gt gt_end =
    let m1 =
      if gt == 0
      then set_prev (set_next m mid 0) mid 0
      else set_prev (set_prev (set_next m mid gt) mid 0) gt mid in
    let end = if gt == 0 then mid else gt_end in
    if lte == 0 then (m1, mid, end) else (set_prev (set_next m1 lte_end mid) mid lte_end, lte, end)

-- `QuicksortInner`: the memory, `*begin` and `*end`.
unfoldable pub quicksort_inner : ℕ → Memory → ℕ → Option (Memory × ℕ × ℕ)
quicksort_inner zero m l = none
quicksort_inner (suc fuel) m l =
    if l == 0
    then some (m, 0, 0)
    else if m.next l == 0
    then some (m, l, l)
    else partition fuel m l >>= λ (p : Memory × ℕ × ℕ).
        quicksort_inner fuel p.0 p.1 >>= λ (low : Memory × ℕ × ℕ).
        quicksort_inner fuel low.0 p.2 >>= λ (high : Memory × ℕ × ℕ).
        some (join_sorted high.0 l low.1 low.2 high.1 high.2)

unfoldable pub quicksort : ℕ → Memory → ℕ → Option (Memory × ℕ)
quicksort fuel m head = quicksort_inner fuel m head >>= λ (r : Memory × ℕ × ℕ).
    let m1 = if r.1 == 0 then r.0 else set_prev r.0 r.1 0 in
    let m2 = if r.2 == 0 then m1 else set_next m1 r.2 0 in some (m2, r.1)

unfoldable pub sort_blocks : ℕ → Memory → ℕ → Option Memory
unfolding head quicksort
sort_blocks fuel m block =
    head fuel m block >>= λ (first : ℕ). quicksort fuel m first >>= λ (r : Memory × ℕ). some r.0

-- A block takes over the one behind it.
unfoldable pub absorb : Memory → (block next : ℕ) → Memory
absorb m block next =
    let m1 = set_size m block (add_word (m.size block) (m.size next)) in
    let m2 = set_next m1 block (m1.next next) in
    if m2.next next == 0 then m2 else set_prev m2 (m2.next next) block

-- One round of the loop in `mergeAdjacentBlocks`, where `next` is not null.
unfoldable pub merge_step : Memory → (block next : ℕ) → Memory × ℕ
merge_step m block next =
    if add_word block (m.size block) == next && m.slide next == m.slide block
    then (absorb m block next, block)
    else (m, m.next block)

unfoldable pub merge_adjacent_blocks : ℕ → Memory → ℕ → Option Memory
merge_adjacent_blocks zero m block = none
merge_adjacent_blocks (suc fuel) m block =
    let next = m.next block in
    let (m', block') = merge_step m block next in
    let rest = merge_adjacent_blocks fuel m' block' in
    if block == 0 then some m else if next == 0 then some m else rest
