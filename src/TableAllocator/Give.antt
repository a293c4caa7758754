-- ===== src/TableAllocator/Give.antt =====
-- `PageTableAllocator::deallocate`, `create` and `CanAllocateBlocks`.
use bez_os.ControlBlock.Order.{IsList}
use bez_os.ControlBlock.Spaced.{IsDisjoint, fresh_lem}
use bez_os.ControlBlock.Chain.{Chain, has, relink, has-last, end_next, null-or_has}
use bez_os.ControlBlock.Extents.{extents, total, AllFit, extents-same}
use bez_os.TableAllocator.Free.{IsFreeList}
use mathlib.Core.Path.{subst}
use bez_os.Prelude.{
  leb, ◌==◌, if◌then◌else◌, Bool-cases, length, ℕ, zero, suc, ◌-◌, ◌*◌, ◌<◌, ◌≡◌, refl, sym, ap,
  ap₂, ◌∙◌, ◌≢◌, ◌⊎◌, inl, inr, true, false, ◌||◌, some, List, [], ◌∷◌, arith,
}
use bez_os.TableAllocator.{
  PageTableAllocator, deallocate, can_allocate_blocks, Memory, mul_word, set_block, set_prev,
}

-- What `deallocate` comes to.
pub record Given (a : PageTableAllocator) (xs : List ℕ) (block blocks slide : ℕ) : Type 0 where
  pub after : PageTableAllocator
  pub comes_to : deallocate a block blocks slide ≡ some after
  pub front : after.front ≡ block
  pub free : IsFreeList after.memory block (block ∷ xs)
  pub stands_for :
      extents after.memory (block ∷ xs)
      ≡ record { start = block; size = blocks * a.block_size; slide = slide } ∷ extents a.memory xs
  pub keeps_block_size : after.block_size ≡ a.block_size
  pub same :
      (b : ℕ)
      → (b ≡ block)
        ⊎ ((has b xs ≡ true)
            ⊎ ((after.memory.next b ≡ a.memory.next b) × (after.memory.prev b ≡ a.memory.prev b)))

-- `CanAllocateBlocks` of a size that is not 0 says whether the blocks from the given one on have that
-- much memory between them. The loop has enough fuel with more than there are blocks.
pub can_allocate_blocks_lem :
    (fuel : ℕ) (m : Memory) (before first : ℕ) (xs : List ℕ) (last size : ℕ)
    → Chain m before first xs last 0
    → 0 < size
    → length xs < fuel
    → can_allocate_blocks fuel m first size ≡ some (leb size (total (extents m xs)))
unfolding can_allocate_blocks
can_allocate_blocks_lem zero m before first xs last size c pos lt = absurd (omega arith)
can_allocate_blocks_lem (suc fuel) m before first [] last size c pos lt = ground (arith, c.0)
can_allocate_blocks_lem (suc fuel) m before first (x ∷ xs) last size c pos lt =
    let there : (x == 0) ≡ false = ground (arith, c.1) in
    rw (c.0, there)
      (elim (Bool-cases (leb size (m.size x))) [
        | inl enough ↦ rw enough (ground arith)
        | inr short ↦ rw short (
            can_allocate_blocks_lem fuel m x (m.next x) xs last (size - m.size x) c.4 (ground arith)
              (omega arith)
            ∙ ap some (ground arith))
      ])

module _ (a : PageTableAllocator) (xs : List ℕ) (block blocks slide : ℕ)
    (free : IsFreeList a.memory a.front xs)
    (fits : AllFit (record { start = block; size = blocks * a.block_size; slide = slide } ∷ []))
    (fresh : IsDisjoint (
      record { start = block; size = blocks * a.block_size; slide = slide }
      ∷ extents a.memory xs)) where
  abbrev size : ℕ
  size = blocks * a.block_size

  asked : mul_word blocks a.block_size ≡ size
  asked = ground (arith, fits.0, fits.2)

  out : has block xs ≡ false
  out = fresh_lem a.memory block xs free.fit (ground (arith, fresh.0 block))

  abbrev added : Memory
  added =
      let m1 = set_block a.memory block a.front 0 size slide in
      if a.front == 0 then m1 else set_prev m1 a.front block

  checked : (a.front == 0 || a.memory.prev a.front == 0) ≡ true
  checked = go xs free.list.last free.list.chain
    where
      go :
          (ys : List ℕ) (last : ℕ)
          → Chain a.memory 0 a.front ys last 0
          → (a.front == 0 || a.memory.prev a.front == 0) ≡ true
      go [] last d = ground (arith, d.0)
      go (y ∷ ys) last d = ground (arith, ap a.memory.prev d.0, d.2)

  IsList-added : IsList added block (block ∷ xs)
  IsList-added = go xs free.list.last free.list.chain out
    where
      go :
          (ys : List ℕ) (last : ℕ)
          → Chain a.memory 0 a.front ys last 0
          → has block ys ≡ false
          → IsList added block (block ∷ ys)
      go [] last d absent = record {
        last = block;
        chain =
            (refl, ground (arith, fits.0), ground (arith, d.0), refl, (ground (arith, d.0), refl));
      }
      go (y ∷ ys) last d absent =
          let differ : a.front ≢ block = ground (arith, d.0) in
          let next : added.next block ≡ a.front = ground arith in
          record {
            last = last;
            chain = (
              refl,
              ground (arith, fits.0),
              ground arith,
              absent,
              rw next (
                  relink a.memory added 0 block a.front y ys last 0 0 d (λ b i ne. ground arith)
                    (λ b i ne. ground arith)
                    (ground (
                      arith,
                      has-last a.memory 0 a.front y ys last 0 d,
                      end_next a.memory 0 a.front y ys last 0 d,
                    ))
                    (ground (arith, d.0, d.1))),
            );
          }

  elsewhere :
      (b : ℕ)
      → (b ≡ block)
        ⊎ ((has b xs ≡ true)
            ⊎ ((added.next b ≡ a.memory.next b) × (added.prev b ≡ a.memory.prev b)))
  elsewhere b = elim (Bool-cases (b == block)) [
    | inl here ↦ inl (ground arith)
    | inr other ↦ elim (Bool-cases (has b xs)) [
      | inl i ↦ inr (inl i)
      | inr absent ↦
          let front = null-or_has a.memory 0 a.front xs free.list.last free.list.chain in
          inr (inr (ground arith, ground (arith, front, absent)))
    ]
  ]

  added_size : added.size block ≡ size
  added_size = ground arith

  added_slide : added.slide block ≡ slide
  added_slide = ground arith

  extents-added :
      extents added (block ∷ xs)
      ≡ record { start = block; size = size; slide = slide } ∷ extents a.memory xs
  extents-added =
      ap₂ ◌∷◌ (rw (added_size, added_slide) refl)
        (extents-same a.memory added xs λ b i. (ground (arith, out), ground (arith, out)))

-- `deallocate` of memory that does not overlap the well-formed free list, is not empty, does not begin
-- at null and does not reach past the end of the address space puts it before the free blocks, and the
-- free list stays well formed.
pub deallocate_lem :
    (a : PageTableAllocator) (xs : List ℕ) (block blocks slide : ℕ)
    → IsFreeList a.memory a.front xs
    → AllFit (record { start = block; size = blocks * a.block_size; slide = slide } ∷ [])
    → IsDisjoint (
        record { start = block; size = blocks * a.block_size; slide = slide } ∷ extents a.memory xs)
    → Given a xs block blocks slide
unfolding deallocate
deallocate_lem a xs block blocks slide free fits fresh =
    let check = checked a xs block blocks slide free fits fresh in
    let stands = extents-added a xs block blocks slide free fits fresh in
    record {
      after = record a { memory = added a xs block blocks slide free fits fresh; front = block };
      comes_to = rw (check, asked a xs block blocks slide free fits fresh) refl;
      front = refl;
      free = record {
        list = IsList-added a xs block blocks slide free fits fresh;
        fit = subst AllFit (sym stands) (fits.0, fits.1, fits.2, free.fit);
        disjoint = subst IsDisjoint (sym stands) fresh;
      };
      stands_for = stands;
      keeps_block_size = refl;
      same = elsewhere a xs block blocks slide free fits fresh;
    }
