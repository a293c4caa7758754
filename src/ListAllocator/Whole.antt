-- ===== src/ListAllocator/Whole.antt =====
-- `allocateList` as a whole.
use bez_os.TableAllocator.Give.{can_allocate_blocks_lem}
use bez_os.ListAllocator.Loop.{Found, list_loop_lem, loop_done, Pages-then}
use bez_os.ControlBlock.Extents.{total, extents}
use bez_os.ListAllocator.Portion.{Pages, AllWhole}
use bez_os.TableAllocator.Free.{IsFreeList}
use bez_os.ListAllocator.Head.{Begun, head_found}
use bez_os.TableList.{PageTableAllocation, page_size}
use bez_os.Prelude.{
  leb, Bool-cases, length, ℕ, zero, suc, ◌+◌, ◌-◌, ◌*◌, ◌^◌, ◌≤◌, ◌<◌, ◌≡◌, refl, sym, ap, ◌∙◌, ◌⊎◌,
  inl, inr, true, none, some, List, [], ◌∷◌, arith,
}
use bez_os.TableAllocator.{PageTableAllocator, mul_word, can_allocate_blocks}
use bez_os.ListAllocator.{allocate_list}

-- What `allocateList` comes to where there is enough memory.
pub record Listed (fuel : ℕ) (a : PageTableAllocator) (xs : List ℕ) (blocks : ℕ) : Type 0 where
  pub after : PageTableAllocator
  pub rest : List ℕ
  pub list : PageTableAllocation
  pub linked : List PageTableAllocation
  pub comes_to : allocate_list fuel a blocks ≡ some (after, some list)
  pub found : Pages a.memory xs after.front rest blocks [] after.memory list linked
  pub keeps_block_size : after.block_size ≡ a.block_size

-- The loop after `AllocateHead`.
finish :
    (fuel : ℕ) (a : PageTableAllocator) (xs : List ℕ) (n : ℕ)
    → (h : Begun a xs n) → a.block_size ≡ page_size
    → n * page_size < 2 ^ 64
    → n * page_size ≤ total (extents a.memory xs)
    → length xs < fuel
    → Found fuel h.after h.rest h.remaining h.list h.linked
finish zero a xs n h paged fits enough lt = absurd (omega arith)
finish (suc fuel) a xs n h paged fits enough lt = elim h.goes_on [
  | inr (whole, fewer) ↦
      list_loop_lem (suc fuel) h.after h.rest h.remaining h.list h.linked h.found.free whole
        (h.keeps_block_size ∙ paged) (omega (arith, h.fewer)) (omega (arith, h.found.sum, h.fewer))
        h.found.links h.found.away (omega arith)
  | inl all ↦
      rw all (loop_done fuel h.after h.rest h.list h.linked h.found.free h.found.links h.found.away)
]

-- `allocateList` for at least one page, of a byte count below 2 ^ 64, from a well-formed free list of
-- blocks of whole pages, where a block of the allocator is a page, comes to its end, given more fuel
-- than there are free blocks. Where the free memory is too small it changes nothing and there is no
-- list. Else the list has just so many pages, which begin in memory that was free and is not free now,
-- and the free list is well formed and smaller by their size.
pub allocate_list_lem :
    (fuel : ℕ) (a : PageTableAllocator) (xs : List ℕ) (blocks : ℕ)
    → IsFreeList a.memory a.front xs
    → AllWhole (extents a.memory xs)
    → a.block_size ≡ page_size
    → 0 < blocks
    → blocks * page_size < 2 ^ 64
    → length xs < fuel
    → ((total (extents a.memory xs) < blocks * page_size)
        × (allocate_list fuel a blocks ≡ some (a, none)))
      ⊎ Listed fuel a xs blocks
unfolding allocate_list
allocate_list_lem fuel a xs blocks free whole paged pos fits lt =
    let size = blocks * page_size in
    let asked : mul_word blocks a.block_size ≡ size = rw paged (ground arith) in
    let check =
      can_allocate_blocks_lem fuel a.memory 0 a.front xs free.list.last size free.list.chain
        (omega arith) lt in
    elim (Bool-cases (leb size (total (extents a.memory xs)))) [
      | inr short ↦ inl (ground arith, rw (asked, check, short) refl)
      | inl enough ↦ inr (run xs free whole lt (asked, check ∙ ap some enough) (ground arith))
    ]
  where
    run :
        (ys : List ℕ)
        → IsFreeList a.memory a.front ys
        → AllWhole (extents a.memory ys)
        → length ys < fuel
        → (mul_word blocks a.block_size ≡ blocks * page_size)
          × (can_allocate_blocks fuel a.memory a.front (blocks * page_size) ≡ some true)
        → blocks * page_size ≤ total (extents a.memory ys)
        → Listed fuel a ys blocks
    run [] f w l check enough = absurd (omega arith)
    run (y ∷ ys) f w l check enough =
        let h = head_found a y ys blocks f w paged pos fits in
        let r = finish fuel a (y ∷ ys) blocks h paged fits enough l in
        let sum : (blocks - h.remaining) + h.remaining ≡ blocks = omega (arith, h.fewer) in
        record {
          after = r.after;
          rest = r.rest;
          list = r.pages;
          linked = r.linked;
          comes_to = rw (check.0, check.1, h.comes_to, r.comes_to) refl;
          found = rw (sym sum) (
              Pages-then a.memory (y ∷ ys) h.after.front h.rest (blocks - h.remaining) []
                h.after.memory h.list h.linked r.after.front r.rest h.remaining r.after.memory
                r.pages r.linked h.found r.found);
          keeps_block_size = r.keeps_block_size ∙ h.keeps_block_size;
        }
