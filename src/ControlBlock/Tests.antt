-- ===== src/ControlBlock/Tests.antt =====
-- The free list on concrete memory.
use bez_os.ControlBlock.Compact.{Compact, compact_lem}
use bez_os.ControlBlock.Order.{IsList, Ordered, sort_blocks_lem, head_lem}
use bez_os.Prelude.{◌==◌, if◌then◌else◌, ℕ, ◌≡◌, refl, Option, none, some, [], ◌∷◌, arith}
use bez_os.ControlBlock.{
  Memory, sort_blocks, merge_adjacent_blocks, head, quicksort_inner, quicksort, partition,
  partition_loop, partition_step, move_to_result, join_sorted, merge_step, absorb,
}

-- Three blocks of 16 bytes, at 48, 16 and 32, in this order.
abbrev pub three : Memory
three = record {
  next = λ b. if b == 48 then 16 else if b == 16 then 32 else 0;
  prev = λ b. if b == 16 then 48 else if b == 32 then 16 else 0;
  size = λ b. 16;
  slide = λ b. 0;
}

pub IsList-three : IsList three 48 (48 ∷ 16 ∷ 32 ∷ [])
IsList-three = record {
  last = 32;
  chain = (
    refl,
    ground arith,
    refl,
    refl,
    (refl, ground arith, refl, refl, (refl, ground arith, refl, refl, (refl, refl))),
  );
}

sort_blocks_lem_example : Ordered three 4 16 (48 ∷ 16 ∷ 32 ∷ [])
sort_blocks_lem_example =
    sort_blocks_lem three 4 48 48 (16 ∷ 32 ∷ []) 16 IsList-three refl (omega arith)

head_lem_example : head 3 three 32 ≡ some 48
head_lem_example = head_lem three 3 48 (48 ∷ 16 ∷ 32 ∷ []) 32 IsList-three refl (omega arith)

-- Two adjacent blocks and one with a gap before it.
abbrev spread : Memory
spread = record {
  next = λ b. if b == 16 then 32 else if b == 32 then 96 else 0;
  prev = λ b. if b == 32 then 16 else if b == 96 then 32 else 0;
  size = λ b. 16;
  slide = λ b. 0;
}

compact_lem_example : Compact spread 3 16 (16 ∷ 32 ∷ 96 ∷ [])
compact_lem_example =
    compact_lem spread 3 16 16 (16 ∷ 32 ∷ 96 ∷ [])
      (record {
        last = 96;
        chain = (
          refl,
          ground arith,
          refl,
          refl,
          (refl, ground arith, refl, refl, (refl, ground arith, refl, refl, (refl, refl))),
        );
      })
      (ground arith) refl (omega arith)

abbrev first_block : Option Memory → ℕ × ℕ
first_block none = (0, 0)
first_block (some m) = (m.size 16, m.next 16)

abbrev merge_from : ℕ → Option Memory → Option Memory
merge_from block none = none
merge_from block (some m) = merge_adjacent_blocks 4 m block

-- The sort and the merge of all three blocks leave one.
sort_then_merge : first_block (merge_from 16 (sort_blocks 4 three 16)) ≡ (48, 0)
unfolding sort_blocks merge_adjacent_blocks quicksort_inner quicksort head partition partition_loop
    partition_step move_to_result join_sorted merge_step absorb
sort_then_merge = refl
