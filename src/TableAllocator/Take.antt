-- ===== src/TableAllocator/Take.antt =====
-- `AllocateBlock`: what it takes from the free list.
use bez_os.TableAllocator.Cut.{
  take_end, at_front, tail_lem, found, parted, IsFreeList-popped, tail, takes_all,
  IsFreeList-parted, takes_part,
}
use bez_os.ControlBlock.{Memory}
use bez_os.TableAllocator.Free.{IsFreeList}
use bez_os.ControlBlock.Extents.{extents, extent}
use bez_os.Prelude.{
  ltb, ◌==◌, Bool-cases, ℕ, ◌<◌, ◌≡◌, refl, ap, ◌∙◌, ◌≢◌, ◌⊎◌, inl, inr, true, false, none, some,
  List, [], ◌∷◌, arith,
}
use bez_os.TableAllocator.{PageTableAllocator, allocate_block, set_head, split_block}

-- What `AllocateBlock` comes to where it finds a block.
pub record Taken (a : PageTableAllocator) (xs : List ℕ) (size : ℕ) : Type 0 where
  pub after : PageTableAllocator
  pub blocks : List ℕ
  pub block : ℕ
  pub comes_to : allocate_block a size ≡ some (after, block)
  pub not_null : block ≢ 0
  pub free : IsFreeList after.memory after.front blocks
  pub takes :
      take_end size (extents a.memory xs)
      ≡ some (extent after.memory block, extents after.memory blocks)
  pub keeps_block_size : after.block_size ≡ a.block_size

module _ (a : PageTableAllocator) (x : ℕ) (xs : List ℕ) (size : ℕ)
    (free : IsFreeList a.memory a.front (x ∷ xs)) (some_size : 0 < size) where
  abbrev m : Memory
  m = a.memory

  -- The first block fits exactly.
  take_all : m.size x ≡ size → Taken a (x ∷ xs) size
  unfolding allocate_block
  take_all fits =
      let c = free.list.chain in
      let exact : m.size a.front ≡ size = ap m.size (at_front a x xs size free some_size) ∙ fits in
      let next : m.next a.front ≡ m.next x = ap m.next (at_front a x xs size free some_size) in
      let whole : (m.size x == size) ≡ true = ground arith in
      let big : ltb (m.size x) size ≡ false = ground arith in
      let front : (a.front == 0) ≡ false = (found a x xs size free some_size).0 in
      let asked : (size == 0) ≡ false = ground arith in
      record {
        after = set_head a (m.next x);
        blocks = xs;
        block = x;
        comes_to =
            rw
              (
                asked,
                front,
                (found a x xs size free some_size).1,
                ap (λ b. ltb (m.size b) size) (at_front a x xs size free some_size) ∙ big,
                ap (λ b. m.size b == size) (at_front a x xs size free some_size) ∙ whole,
                (at_front a x xs size free some_size),
              )
              refl;
        not_null = c.1;
        free = (IsFreeList-popped a x xs size free some_size);
        takes = (takes_all a x xs size free some_size) fits;
        keeps_block_size = refl;
      }

  -- The first block is larger.
  take_part : size < m.size x → Taken a (x ∷ xs) size
  unfolding allocate_block split_block
  take_part lt =
      let big : ltb (m.size x) size ≡ false = ground arith in
      let more : (m.size x == size) ≡ false = ground arith in
      let room : ltb size (m.size x) ≡ true = ground arith in
      let asked : (size == 0) ≡ false = ground arith in
      let (at_tail, ne, out, lies) = (tail_lem a x xs size free some_size) lt in
      record {
        after = record a { memory = (parted a x xs size free some_size); front = x };
        blocks = x ∷ xs;
        block = (tail a x xs size free some_size);
        comes_to =
            rw
              (
                asked,
                (found a x xs size free some_size).0,
                (found a x xs size free some_size).1,
                ap (λ b. ltb (m.size b) size) (at_front a x xs size free some_size) ∙ big,
                ap (λ b. m.size b == size) (at_front a x xs size free some_size) ∙ more,
                ap (λ b. ltb size (m.size b)) (at_front a x xs size free some_size) ∙ room,
                (at_front a x xs size free some_size),
                at_tail,
              )
              refl;
        not_null = ground (arith, free.fit.0);
        free = (IsFreeList-parted a x xs size free some_size) lt;
        takes = (takes_part a x xs size free some_size) lt;
        keeps_block_size = refl;
      }

-- `AllocateBlock` takes the end of the first free block, or does nothing where that is too small or there
-- is none.
pub allocate_block_lem :
    (a : PageTableAllocator) (xs : List ℕ) (size : ℕ)
    → IsFreeList a.memory a.front xs
    → 0 < size
    → ((allocate_block a size ≡ some (a, 0)) × (take_end size (extents a.memory xs) ≡ none))
      ⊎ Taken a xs size
unfolding allocate_block
allocate_block_lem a [] size free pos =
    let asked : (size == 0) ≡ false = ground arith in
    let gone : (a.front == 0) ≡ true = ground (arith, free.list.chain.0) in
    inl (rw (asked, gone) refl, refl)
allocate_block_lem a (x ∷ xs) size free pos = elim (Bool-cases (ltb (a.memory.size x) size)) [
  | inl small ↦
      let asked : (size == 0) ≡ false = ground arith in
      let there = found a x xs size free pos in
      let front = free.list.chain.0 in
      inl (
        rw (asked, there.0, there.1, ap (λ b. ltb (a.memory.size b) size) front ∙ small) refl,
        rw small refl,
      )
  | inr large ↦ elim (Bool-cases (a.memory.size x == size)) [
    | inl whole ↦ inr (take_all a x xs size free pos (ground arith))
    | inr more ↦ inr (take_part a x xs size free pos (ground arith))
  ]
]
