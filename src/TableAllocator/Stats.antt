-- ===== src/TableAllocator/Stats.antt =====
-- `PageTableAllocator::stats`.
use bez_os.ControlBlock.Rising.{sum_of}
use bez_os.ControlBlock.Order.{IsList}
use bez_os.ControlBlock.Chain.{Chain}
use bez_os.Prelude.{
  ltb, ◌==◌, if◌then◌else◌, length, ℕ, zero, suc, ◌+◌, ◌/◌, ◌%◌, ◌^◌, ◌<◌, ◌≡◌, refl, ◌∙◌, false,
  some, List, [], ◌∷◌, arith,
}
use bez_os.TableAllocator.{PageTableAllocator, PteAllocatorStats, stats, stats_loop}

-- The largest of the numbers of blocks.
abbrev largest : (ℕ → ℕ) → ℕ → List ℕ → ℕ
largest g best [] = best
largest g best (x ∷ xs) = largest g (if ltb best (g x) then g x else best) xs

stats_loop_lem :
    (fuel : ℕ) (a : PageTableAllocator) (before first : ℕ) (xs : List ℕ) (last : ℕ)
    (s : PteAllocatorStats)
    → Chain a.memory before first xs last 0
    → s.free_blocks + sum_of (λ b. a.memory.size b / a.block_size) xs < 2 ^ 64
    → s.chain_length + length xs < 2 ^ 64
    → length xs < fuel
    → stats_loop fuel a first s
      ≡ some (record {
        block_size = s.block_size;
        free_blocks = s.free_blocks + sum_of (λ b. a.memory.size b / a.block_size) xs;
        chain_length = s.chain_length + length xs;
        largest_block = largest (λ b. a.memory.size b / a.block_size) s.largest_block xs;
      })
unfolding stats_loop
stats_loop_lem zero a before first xs last s c sum len lt = absurd (omega arith)
stats_loop_lem (suc fuel) a before first [] last s c sum len lt =
    let free : s.free_blocks + 0 ≡ s.free_blocks = omega arith in
    let count : s.chain_length + 0 ≡ s.chain_length = omega arith in rw (c.0, free, count) refl
stats_loop_lem (suc fuel) a before first (x ∷ xs) last s c sum len lt =
    let g : ℕ → ℕ = λ b. a.memory.size b / a.block_size in
    let there : (x == 0) ≡ false = ground (arith, c.1) in
    let free : (s.free_blocks + g x) % 2 ^ 64 ≡ s.free_blocks + g x = ground arith in
    let count : (s.chain_length + 1) % 2 ^ 64 ≡ s.chain_length + 1 = ground arith in
    let sum_assoc : s.free_blocks + g x + sum_of g xs ≡ s.free_blocks + (g x + sum_of g xs) =
      omega arith in
    let len_assoc : s.chain_length + 1 + length xs ≡ s.chain_length + suc (length xs) =
      omega arith in
    rw (c.0, there, free, count)
      (stats_loop_lem fuel a x (a.memory.next x) xs last
          (record {
            block_size = s.block_size;
            free_blocks = s.free_blocks + g x;
            chain_length = s.chain_length + 1;
            largest_block = (if ltb s.largest_block (g x) then g x else s.largest_block);
          })
          c.4 (omega arith) (omega arith) (omega arith)
        ∙ rw (sum_assoc, len_assoc) refl)

-- `stats` counts the free blocks: their number of pages together, how many blocks there are and the
-- pages of the largest. The loop has enough fuel with more than there are blocks, and the first two
-- numbers are taken to be below 2 ^ 64.
stats_lem :
    (fuel : ℕ) (a : PageTableAllocator) (xs : List ℕ)
    → IsList a.memory a.front xs
    → sum_of (λ b. a.memory.size b / a.block_size) xs < 2 ^ 64
    → length xs < 2 ^ 64
    → length xs < fuel
    → stats fuel a
      ≡ some (record {
        block_size = a.block_size;
        free_blocks = sum_of (λ b. a.memory.size b / a.block_size) xs;
        chain_length = length xs;
        largest_block = largest (λ b. a.memory.size b / a.block_size) 0 xs;
      })
unfolding stats
stats_lem fuel a xs l sum len lt =
    let free : ℕ = sum_of (λ b. a.memory.size b / a.block_size) xs in
    stats_loop_lem fuel a 0 a.front xs l.last
      (record { block_size = a.block_size; free_blocks = 0; chain_length = 0; largest_block = 0 })
      l.chain (omega arith) (omega arith) lt
    ∙ (let none_free : 0 + free ≡ free = omega arith in
        let none_counted : 0 + length xs ≡ length xs = omega arith in
        rw (none_free, none_counted) refl)
