-- ===== src/TableAllocator/Allocate.antt =====
-- `PageTableAllocator::allocate`.
use bez_os.ControlBlock.Spaced.{inside, IsDisjoint}
use bez_os.TableAllocator.Take.{Taken, allocate_block_lem}
use bez_os.TableAllocator.Cut.{take_end_lem, IsSplit, IsSplitBy, take_end_lem}
use bez_os.ControlBlock.Extents.{total, extents, covered, extent, AllFit}
use bez_os.TableAllocator.Free.{IsFreeList}
use mathlib.Core.Path.{subst}
use bez_os.Prelude.{
  ◌==◌, length, ℕ, ◌+◌, ◌*◌, ◌^◌, ◌<◌, ◌≡◌, refl, sym, ap, ◌∙◌, ◌≢◌, ◌⊎◌, inl, inr, false, ◌&&◌,
  ◌||◌, some, List, [], ◌∷◌, arith,
}
use bez_os.TableAllocator.Give.{deallocate_lem}
use bez_os.TableAllocator.{deallocate, PageTableAllocator, allocate, allocate_block, mul_word}
use bez_os.TableAllocator.Defragment.{Defragmented, defragment_lem}

-- What `allocate` comes to: null and the memory that there was, or a block of the size asked for that is
-- no longer in the free list.
pub record Allocated (fuel : ℕ) (a : PageTableAllocator) (xs : List ℕ) (blocks : ℕ) : Type 0 where
  pub after : PageTableAllocator
  pub rest : List ℕ
  pub block : ℕ
  pub comes_to : allocate fuel a blocks ≡ some (after, block)
  pub free : IsFreeList after.memory after.front rest
  pub keeps_block_size : after.block_size ≡ a.block_size
  pub result :
      ((block ≡ 0)
        × (total (extents after.memory rest) ≡ total (extents a.memory xs))
        × ((p : ℕ) → covered p (extents after.memory rest) ≡ covered p (extents a.memory xs)))
      ⊎ ((block ≢ 0)
          × (after.memory.size block ≡ blocks * a.block_size)
          × (total (extents a.memory xs)
              ≡ blocks * a.block_size + total (extents after.memory rest))
          × ((p : ℕ)
              → covered p (extents a.memory xs)
                ≡ (inside p (extent after.memory block) || covered p (extents after.memory rest)))
          × ((p : ℕ)
              → (inside p (extent after.memory block) && covered p (extents after.memory rest))
                ≡ false)
          × AllFit (extent after.memory block ∷ []))

-- What the block taken from the free list is.
taken_lem :
    (a : PageTableAllocator) (xs : List ℕ) (size : ℕ)
    → IsFreeList a.memory a.front xs
    → 0 < size
    → (t : Taken a xs size)
    → IsSplit size
        (extents a.memory xs)
        (extent t.after.memory t.block)
        (extents t.after.memory t.blocks)
taken_lem a xs size free pos t =
    subst (IsSplitBy size (extents a.memory xs)) t.takes
      (take_end_lem size (extents a.memory xs) pos free.fit free.disjoint)

module _ (fuel : ℕ) (a : PageTableAllocator) (xs : List ℕ) (blocks : ℕ)
    (free : IsFreeList a.memory a.front xs) (pos : 0 < blocks * a.block_size)
    (fits : blocks * a.block_size < 2 ^ 64) where
  abbrev size : ℕ
  size = blocks * a.block_size

  asked : mul_word blocks a.block_size ≡ size
  asked = ground arith

  at_once : Taken a xs size → Allocated fuel a xs blocks
  unfolding allocate
  at_once t =
      let split = taken_lem a xs size free pos t in
      let there : (t.block == 0) ≡ false = ground (arith, t.not_null) in
      record {
        after = t.after;
        rest = t.blocks;
        block = t.block;
        comes_to = rw (asked, t.comes_to, there) refl;
        free = t.free;
        keeps_block_size = t.keeps_block_size;
        result = inr (t.not_null, split.0, split.1, split.2, split.3, split.4);
      }

  second : Defragmented fuel a xs → allocate_block a size ≡ some (a, 0) → Allocated fuel a xs blocks
  unfolding allocate
  second d none_first = elim (allocate_block_lem d.after d.blocks size d.free pos) [
    | inl failed ↦ record {
      after = d.after;
      rest = d.blocks;
      block = 0;
      comes_to = rw (asked, none_first, d.comes_to, failed.0) refl;
      free = d.free;
      keeps_block_size = d.keeps_block_size;
      result = inl (refl, d.keeps_total, d.keeps_covered);
    }
    | inr t ↦
        let split = taken_lem d.after d.blocks size d.free pos t in
        record {
          after = t.after;
          rest = t.blocks;
          block = t.block;
          comes_to = rw (asked, none_first, d.comes_to, t.comes_to) refl;
          free = t.free;
          keeps_block_size = t.keeps_block_size ∙ d.keeps_block_size;
          result = inr (
            t.not_null,
            split.0,
            sym d.keeps_total ∙ split.1,
            λ p. sym (d.keeps_covered p) ∙ split.2 p,
            split.3,
            split.4,
          );
        }
  ]

-- `allocate` from a well-formed free list, of a size that is not 0 and does not wrap, comes to its
-- end, given more fuel than there are free blocks, and keeps the free list well formed. It returns
-- null with the free memory as it was, or a block of just the size asked for: the free memory was that
-- block and what is free now, which do not overlap.
pub allocate_lem :
    (fuel : ℕ) (a : PageTableAllocator) (xs : List ℕ) (blocks : ℕ)
    → IsFreeList a.memory a.front xs
    → 0 < blocks * a.block_size
    → blocks * a.block_size < 2 ^ 64
    → length xs < fuel
    → Allocated fuel a xs blocks
allocate_lem fuel a xs blocks free pos fits lt =
    elim (allocate_block_lem a xs (blocks * a.block_size) free pos) [
      | inl failed ↦
          second fuel a xs blocks free pos fits (defragment_lem fuel a xs free lt) failed.0
      | inr t ↦ at_once fuel a xs blocks free pos fits t
    ]

-- What `deallocate` of the block that `allocate` returned comes to.
pub record GivenBack (a : PageTableAllocator) (xs : List ℕ) (r : PageTableAllocator)
    (block blocks slide : ℕ) : Type 0 where
  pub after : PageTableAllocator
  pub rest : List ℕ
  pub comes_to : deallocate r block blocks slide ≡ some after
  pub free : IsFreeList after.memory after.front rest
  pub restores_total : total (extents after.memory rest) ≡ total (extents a.memory xs)
  pub restores_covered :
      (p : ℕ) → covered p (extents after.memory rest) ≡ covered p (extents a.memory xs)

-- From a well-formed free list, given more fuel than there are free blocks, `allocate` of a size that
-- is not 0 and does not wrap returns null or a block that `deallocate` takes back, with whatever
-- slide: the free list is then well formed and the free memory what it was.
pub deallocate-allocate :
    (fuel : ℕ) (a : PageTableAllocator) (xs : List ℕ) (blocks slide : ℕ)
    → IsFreeList a.memory a.front xs
    → 0 < blocks * a.block_size
    → blocks * a.block_size < 2 ^ 64
    → length xs < fuel
    → (r : PageTableAllocator) × (block : ℕ) × (allocate fuel a blocks ≡ some (r, block))
      × ((block ≡ 0) ⊎ GivenBack a xs r block blocks slide)
deallocate-allocate fuel a xs blocks slide free pos fits lt =
    let r = allocate_lem fuel a xs blocks free pos fits lt in (r.after, r.block, r.comes_to, back r)
  where
    back :
        (r : Allocated fuel a xs blocks)
        → (r.block ≡ 0) ⊎ GivenBack a xs r.after r.block blocks slide
    back r = elim r.result [
      | inl gone ↦ inl gone.0
      | inr (ne, fixed, sum, parts, apart, fit) ↦
          let same : r.after.memory.size r.block ≡ blocks * r.after.block_size =
            rw r.keeps_block_size fixed in
          let fits_back : AllFit
              (record { start = r.block; size = blocks * r.after.block_size; slide = slide } ∷ []) =
            (fit.0, ground (arith, same, fit.1), ground (arith, same, fit.2), tt) in
          let fresh : IsDisjoint (
              record { start = r.block; size = blocks * r.after.block_size; slide = slide }
              ∷ extents r.after.memory r.rest) =
            (λ p. ground (arith, same, apart p), r.free.disjoint) in
          let g = deallocate_lem r.after r.rest r.block blocks slide r.free fits_back fresh in
          inr (record {
            after = g.after;
            rest = r.block ∷ r.rest;
            comes_to = g.comes_to;
            free = rw g.front g.free;
            restores_total = ap total g.stands_for ∙ omega (arith, same, fixed, sum);
            restores_covered = λ p. ap (covered p) g.stands_for ∙ ground (arith, same, parts p);
          })
    ]
