-- ===== src/TableAllocator/Release.antt =====
-- `PageTableAllocator::releaseMemory`.
use bez_os.Prelude.{◌==◌, if◌then◌else◌, ◌>>=◌, ℕ, zero, suc, Bool, true, false, Option, none, some}
use bez_os.Range.{
  Range, range, intersection, starts_with, is_after, add_word, ends_with, is_empty, contains,
  sub_word,
}
use bez_os.TableAllocator.{
  PageTableAllocator, Memory, head, defragment, set_head, split_block, remove_block, same_range,
}

-- `ControlBlock::range`
unfoldable pub block_range : Memory → ℕ → Range
block_range m block = range block (add_word block (m.size block))

unfoldable pub overlap_of : Memory → ℕ → Range → Range
overlap_of m block r = intersection (block_range m block) r

-- A round of the loop at a block that overlaps the range: the memory, the next block, and whether the loop
-- goes on.
pub release_step : Memory → ℕ → Range → Option (Memory × ℕ × Bool)
release_step m block r =
    let own = block_range m block in
    let overlap = overlap_of m block r in
    let from_front =
      split_block m block (sub_word overlap.back overlap.front) >>= λ (s : Memory × ℕ).
      some (remove_block s.0 block, s.1, true) in
    let to_back =
      split_block m block
        (sub_word (sub_word own.back own.front) (sub_word overlap.back overlap.front))
      >>= λ (s : Memory × ℕ).
          (let m1 = remove_block s.0 (s.0.next block) in some (m1, m1.next block, false)) in
    let middle = split_block m block (sub_word overlap.front own.front) >>= λ (s : Memory × ℕ).
    split_block s.0 block (sub_word overlap.back overlap.front) >>= λ (t : Memory × ℕ).
    some (remove_block t.0 t.1, s.1, false) in
    if same_range own overlap
    then (let m1 = remove_block m block in some (m1, m1.next block, true))
    else if starts_with own overlap
    then from_front
    else if ends_with own overlap
    then to_back
    else if contains own overlap
    then middle
    else none

-- The loop of `releaseMemory`: the memory and the block that it ends at.
unfoldable pub release_loop : ℕ → Memory → ℕ → Range → Option (Memory × ℕ)
release_loop zero m block r = none
release_loop (suc fuel) m block r =
    let past = release_loop fuel m (m.next block) r in
    let round = release_step m block r >>= λ (s : Memory × ℕ × Bool).
    (let rest = release_loop fuel s.0 s.1 r in if s.2 then rest else some (s.0, s.1)) in
    if block == 0
    then some (m, block)
    else if is_after (block_range m block) r
    then some (m, block)
    else if is_empty (overlap_of m block r)
    then past
    else round

-- The walk back to the first block.
unfoldable pub walk_back : ℕ → Memory → ℕ → Option ℕ
walk_back fuel m block = if block == 0 then some 0 else head fuel m block

unfoldable pub release_memory : ℕ → PageTableAllocator → Range → Option PageTableAllocator
release_memory fuel a r = defragment fuel a >>= λ (b : PageTableAllocator).
    release_loop fuel b.memory b.front r >>= λ (s : Memory × ℕ).
    walk_back fuel s.0 s.1 >>= λ (first : ℕ). some (set_head (record b { memory = s.0 }) first)
