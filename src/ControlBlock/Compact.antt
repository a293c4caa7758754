-- ===== src/ControlBlock/Compact.antt =====
-- `mergeAdjacentBlocks` for a whole list.
use bez_os.ControlBlock.Merge.{merge_lem}
use bez_os.ControlBlock.Chain.{has}
use bez_os.ControlBlock.Extents.{Extent, AllFit, extents, merged, extent}
use bez_os.ControlBlock.Order.{IsList}
use bez_os.Prelude.{length, ℕ, ◌≤◌, ◌≡◌, refl, true, some, List, [], ◌∷◌, arith}
use bez_os.ControlBlock.{Memory, merge_adjacent_blocks}

-- What `mergeAdjacentBlocks` comes to.
pub record Compact (m : Memory) (fuel first : ℕ) (xs : List ℕ) : Type 0 where
  pub after : Memory
  pub blocks : List ℕ
  pub comes_to : merge_adjacent_blocks fuel m first ≡ some after
  pub list : IsList after first blocks
  pub stands_for :
      (e : Extent) × (es : List Extent) × (extents m xs ≡ e ∷ es)
      × (extents after blocks ≡ merged e es)

-- `mergeAdjacentBlocks` from the first block of a list of blocks that are not empty and do not reach
-- past the end of the address space comes to its end, given a round for each block, and leaves a list
-- that stands for the extents of the blocks with every two that are adjacent made one.
pub compact_lem :
    (m : Memory) (fuel first b : ℕ) (xs : List ℕ)
    → IsList m first xs
    → AllFit (extents m xs)
    → has b xs ≡ true
    → length xs ≤ fuel
    → Compact m fuel first xs
compact_lem m fuel first b [] l fit i le = absurd (ground arith)
compact_lem m fuel first b (x ∷ xs) l fit i le =
    let r = merge_lem fuel m 0 x xs l.last (rw l.chain.0 at l.chain) fit (omega arith) in
    rw l.chain.0 (record {
      after = r.after;
      blocks = x ∷ r.rest;
      comes_to = r.comes_to;
      list = record { last = r.last; chain = r.chain };
      stands_for = (extent m x, extents m xs, refl, r.stands_for);
    })
