-- ===== src/TableAllocator/Create.antt =====
-- `PageTableAllocator::create`.
use bez_os.ControlBlock.Extents.{extents}
use bez_os.TableAllocator.Free.{IsFreeList}
use bez_os.Range.{word}
use bez_os.Range.Pair.{aligned, roundup, rounddown}
use bez_os.Prelude.{
  ◌==◌, Bool-cases, ℕ, ◌+◌, ◌^◌, ◌≤◌, ◌<◌, ◌≡◌, refl, ◌⊎◌, inl, inr, true, none, some, [], ◌∷◌,
  arith,
}
use bez_os.TableAllocator.{
  PageTableAllocator, create, is_page_table_allocator_input_valid, Memory, range, add_word,
  set_block,
}

large_enough :
    (vaddr size block_size : ℕ)
    → 0 < vaddr
    → vaddr < 2 ^ 64
    → size < 2 ^ 64
    → is_page_table_allocator_input_valid (range vaddr (add_word vaddr size)) block_size ≡ true
    → (0 < size) × (vaddr + size ≤ word)
unfolding is_page_table_allocator_input_valid aligned roundup rounddown
large_enough vaddr size block_size pos below short good = ground arith

-- `create` for memory that does not begin at null, its address and size below 2 ^ 64, either refuses,
-- or has a well-formed free list of just one block, the whole memory.
create_one_block :
    (m : Memory) (vaddr size slide block_size : ℕ)
    → 0 < vaddr
    → vaddr < 2 ^ 64
    → size < 2 ^ 64
    → (create m vaddr size slide block_size ≡ none)
      ⊎ ((a : PageTableAllocator) × (create m vaddr size slide block_size ≡ some a)
          × (a.block_size ≡ block_size)
          × IsFreeList a.memory a.front (vaddr ∷ [])
          × (extents a.memory (vaddr ∷ [])
              ≡ record { start = vaddr; size = size; slide = slide } ∷ []))
unfolding create is_page_table_allocator_input_valid
create_one_block m vaddr size slide block_size pos below short =
    elim (Bool-cases
      (is_page_table_allocator_input_valid (range vaddr (add_word vaddr size)) block_size)) [
        | inr bad ↦ inl (rw bad refl)
        | inl good ↦
            let after = set_block m vaddr 0 0 size slide in
            let fits : (0 < size) × (vaddr + size ≤ word) =
              large_enough vaddr size block_size pos below short good in
            let itself : (vaddr == vaddr) ≡ true = ground arith in
            inr (
              record { memory = after; block_size = block_size; front = vaddr },
              rw good refl,
              refl,
              record {
                list = record {
                  last = vaddr;
                  chain = (refl, ground (arith, pos), ground arith, refl, (ground arith, refl));
                };
                fit = rw itself (pos, fits.0, fits.1, tt);
                disjoint = (λ p. ground arith, tt);
              },
              rw itself refl,
            )
      ]
