-- ===== src/ListAllocator/Loop.antt =====
-- The loop of `allocateList`.
use bez_os.TableList.Runs.{push_onto, push_pages-size, push_pages-slide}
use bez_os.TableAllocator.Cut.{tail_lem, parted, tail, popped, popped_size, popped_slide}
use bez_os.ControlBlock.Extents.{extents, total, extents-same}
use bez_os.TableList.Pages.{Links}
use bez_os.TableAllocator.Free.{IsFreeList}
use bez_os.ListAllocator.Portion.{
  Pages, IsAway, part_lem, push-Portion, whole_lem, Portion, removed_lem, AllWhole,
}
use bez_os.ControlBlock.{Memory}
use bez_os.TableList.{PageTableAllocation, page_size, push_pages}
use mathlib.Core.Path.{subst}
use bez_os.Prelude.{
  ltb, ◌==◌, Bool-cases, length, ℕ, zero, suc, ◌+◌, ◌-◌, ◌*◌, ◌/◌, ◌^◌, ◌≤◌, ◌<◌, ◌≡◌, refl, sym,
  ap, ap₂, ◌∙◌, inl, inr, true, false, some, List, [], ◌∷◌, arith,
}
use bez_os.TableAllocator.{PageTableAllocator, mul_word, split_block, remove_block}
use bez_os.ListAllocator.{list_loop, split_off}

-- What the search for `n` more pages comes to.
pub record Found (fuel : ℕ) (a : PageTableAllocator) (xs : List ℕ) (n : ℕ)
    (list : PageTableAllocation) (ps : List PageTableAllocation) : Type 0 where
  pub after : PageTableAllocator
  pub rest : List ℕ
  pub pages : PageTableAllocation
  pub linked : List PageTableAllocation
  pub comes_to : list_loop fuel a a.front n list ≡ some (after, pages)
  pub found : Pages a.memory xs after.front rest n ps after.memory pages linked
  pub keeps_block_size : after.block_size ≡ a.block_size

-- The pages of one portion and then those of what is left.
pub Pages-then :
    (m : Memory) (xs : List ℕ) (f1 : ℕ) (r1 : List ℕ) (k : ℕ) (ps : List PageTableAllocation)
    (m1 : Memory) (l1 : PageTableAllocation) (qs : List PageTableAllocation) (f2 : ℕ) (r2 : List ℕ)
    (n : ℕ) (m2 : Memory) (l2 : PageTableAllocation) (ts : List PageTableAllocation)
    → Pages m xs f1 r1 k ps m1 l1 qs
    → Pages m1 r1 f2 r2 n qs m2 l2 ts
    → Pages m xs f2 r2 (k + n) ps m2 l2 ts
Pages-then m xs f1 r1 k ps m1 l1 qs f2 r2 n m2 l2 ts p q = record {
  free = q.free;
  sum = omega (arith, p.sum, q.sum);
  shrinks = λ b. ground (arith, p.shrinks b, q.shrinks b);
  links = q.links;
  many = omega (arith, p.many, q.many);
  away = q.away;
  from = λ b. ground (arith, q.from b, p.from b, p.shrinks b);
}

module _ (fuel : ℕ) (a : PageTableAllocator) (x : ℕ) (xs : List ℕ) (n : ℕ)
    (list : PageTableAllocation) (ps : List PageTableAllocation)
    (free : IsFreeList a.memory a.front (x ∷ xs)) (paged : a.block_size ≡ page_size) (pos : 0 < n)
    (fits : n * page_size < 2 ^ 64) (links : Links a.memory list ps)
    (away : IsAway ps (extents a.memory (x ∷ xs))) where
  abbrev m : Memory
  m = a.memory

  abbrev size : ℕ
  size = n * page_size

  pos_size : 0 < size
  pos_size = omega arith

  asked : mul_word n a.block_size ≡ size
  asked = rw paged (ground arith)

  at_front : a.front ≡ x
  at_front = free.list.chain.0

  -- The end of the first block is enough.
  last_part : size < m.size x → Found (suc fuel) a (x ∷ xs) n list ps
  unfolding list_loop split_off split_block
  last_part lt =
      let p = part_lem a x xs size free pos_size lt in
      let some_left : (n == 0) ≡ false = ground arith in
      let room : ltb size (m.size a.front) ≡ true =
        ap (λ b. ltb size (m.size b)) at_front ∙ ground arith in
      let t = tail_lem a x xs size free pos_size lt in
      let m1 = parted a x xs size free pos_size in
      let alloc : PageTableAllocation = record {
        block = tail a x xs size free pos_size;
        slide = m1.slide (tail a x xs size free pos_size);
      } in
      let r = push-Portion m (x ∷ xs) m1 x (x ∷ xs) alloc n list ps p links away in
      record {
        after = record a { memory = (push_pages n m1 list alloc 0).0; front = x };
        rest = x ∷ xs;
        pages = (push_pages n m1 list alloc 0).1;
        linked = push_onto n alloc 0 ps;
        comes_to = rw (some_left, asked, room, at_front, t.0) refl;
        found = r;
        keeps_block_size = refl;
      }

  abbrev m1 : Memory
  m1 = popped a x xs size free pos_size

  abbrev alloc : PageTableAllocation
  alloc = record { block = x; slide = m1.slide x }

  gone : remove_block m1 x ≡ m1
  gone = removed_lem a x xs size free pos_size

  -- The whole first block is just enough.
  last_whole : m.size x ≡ size → Found (suc fuel) a (x ∷ xs) n list ps
  unfolding list_loop
  last_whole fits_whole =
      let p = whole_lem a x xs size free pos_size fits_whole in
      let some_left : (n == 0) ≡ false = ground arith in
      let small : ltb size (m.size a.front) ≡ false =
        ap (λ b. ltb size (m.size b)) at_front ∙ ground arith in
      let equal : (m.size a.front == size) ≡ true =
        ap (λ b. m.size b == size) at_front ∙ ground arith in
      record {
        after = record a { memory = (push_pages n m1 list alloc 0).0; front = m.next x };
        rest = xs;
        pages = (push_pages n m1 list alloc 0).1;
        linked = push_onto n alloc 0 ps;
        comes_to = rw (some_left, asked, small, equal, at_front, gone) refl;
        found = push-Portion m (x ∷ xs) m1 (m.next x) xs alloc n list ps p links away;
        keeps_block_size = refl;
      }

  -- The first block is not enough: its `k` pages go to the list.
  module _ (k : ℕ) (whole : m.size x ≡ k * page_size) (less : k < n) where
    abbrev pushed : Memory × PageTableAllocation
    pushed = push_pages k m1 list alloc 0

    abbrev left : PageTableAllocator
    left = record a { memory = pushed.0; front = m.next x }

    first-Pages : Pages m (x ∷ xs) (m.next x) xs k ps pushed.0 pushed.1 (push_onto k alloc 0 ps)
    first-Pages =
        let all : Portion m (x ∷ xs) m1 (m.next x) xs x (k * page_size) =
          whole_lem a x xs (k * page_size) free (ground (arith, free.fit.1)) whole in
        push-Portion m (x ∷ xs) m1 (m.next x) xs alloc k list ps all links away

    extents-left : extents pushed.0 xs ≡ extents m xs
    extents-left =
        let sizes = push_pages-size k m1 list alloc 0 ∙ popped_size a x xs size free pos_size in
        let slides = push_pages-slide k m1 list alloc 0 ∙ popped_slide a x xs size free pos_size in
        extents-same m pushed.0 xs (λ b i. (ap (λ f. f b) sizes, ap (λ f. f b) slides))

    goes_on :
        Found fuel left xs (n - k) pushed.1 (push_onto k alloc 0 ps)
        → Found (suc fuel) a (x ∷ xs) n list ps
    unfolding list_loop
    goes_on r =
        let some_left : (n == 0) ≡ false = ground arith in
        let small : ltb size (m.size a.front) ≡ false =
          ap (λ b. ltb size (m.size b)) at_front ∙ ground arith in
        let short : (m.size a.front == size) ≡ false =
          ap (λ b. m.size b == size) at_front ∙ ground arith in
        let taken : m1.size x ≡ k * page_size =
          ap (λ f. f x) (popped_size a x xs size free pos_size) ∙ whole in
        let count : (k * page_size) / page_size ≡ k = omega arith in
        let still : pushed.0.size x ≡ k * page_size =
          ap (λ f. f x) (push_pages-size k m1 list alloc 0) ∙ taken in
        let count_taken : m1.size x / a.block_size ≡ k = ap₂ (λ c d. c / d) taken paged ∙ count in
        let count_left : pushed.0.size x / a.block_size ≡ k =
          ap₂ (λ c d. c / d) still paged ∙ count in
        let sum : k + (n - k) ≡ n = omega arith in
        record {
          after = r.after;
          rest = r.rest;
          pages = r.pages;
          linked = r.linked;
          comes_to =
              rw (some_left, asked, small, short, at_front, gone, count_taken, count_left)
                r.comes_to;
          found = rw (sym sum) (
              Pages-then m (x ∷ xs) (m.next x) xs k ps pushed.0 pushed.1 (push_onto k alloc 0 ps)
                r.after.front r.rest (n - k) r.after.memory r.pages r.linked first-Pages r.found);
          keeps_block_size = r.keeps_block_size;
        }

-- No pages are left to find.
pub loop_done :
    (fuel : ℕ) (a : PageTableAllocator) (xs : List ℕ) (list : PageTableAllocation)
    (ps : List PageTableAllocation)
    → IsFreeList a.memory a.front xs
    → Links a.memory list ps
    → IsAway ps (extents a.memory xs)
    → Found (suc fuel) a xs 0 list ps
unfolding list_loop
loop_done fuel a xs list ps free links away = record {
  after = a;
  rest = xs;
  pages = list;
  linked = ps;
  comes_to = refl;
  found = record {
    free = free;
    sum = omega arith;
    shrinks = λ b. ground arith;
    links = links;
    many = omega arith;
    away = away;
    from = λ b. ground arith;
  };
  keeps_block_size = refl;
}

-- The search ends, given more fuel than there are free blocks, and finds the pages that it looks for, if
-- there is enough free memory, which is made of whole pages.
pub list_loop_lem :
    (fuel : ℕ) (a : PageTableAllocator) (xs : List ℕ) (n : ℕ) (list : PageTableAllocation)
    (ps : List PageTableAllocation)
    → IsFreeList a.memory a.front xs
    → AllWhole (extents a.memory xs)
    → a.block_size ≡ page_size
    → n * page_size < 2 ^ 64
    → n * page_size ≤ total (extents a.memory xs)
    → Links a.memory list ps
    → IsAway ps (extents a.memory xs)
    → length xs < fuel
    → Found fuel a xs n list ps
unfolding list_loop
list_loop_lem zero a xs n list ps free whole paged fits enough links away lt = absurd (omega arith)
list_loop_lem (suc fuel) a xs zero list ps free whole paged fits enough links away lt =
    loop_done fuel a xs list ps free links away
list_loop_lem (suc fuel) a [] (suc n) list ps free whole paged fits enough links away lt =
    absurd (omega arith)
list_loop_lem (suc fuel) a (x ∷ xs) (suc n) list ps free whole paged fits enough links away lt =
    let k = a.memory.size x / page_size in
    let pages : a.memory.size x ≡ k * page_size = omega (arith, whole.0) in
    let pos : 0 < suc n = omega arith in
    elim (Bool-cases (ltb (suc n * page_size) (a.memory.size x))) [
      | inl large ↦
          last_part fuel a x xs (suc n) list ps free paged pos fits links away (ground arith)
      | inr small ↦ elim (Bool-cases (a.memory.size x == suc n * page_size)) [
        | inl equal ↦
            last_whole fuel a x xs (suc n) list ps free paged pos fits links away (ground arith)
        | inr short ↦
            let less : k < suc n = ground arith in
            let p =
              first-Pages fuel a x xs (suc n) list ps free paged pos fits links away k pages less in
            let same =
              extents-left fuel a x xs (suc n) list ps free paged pos fits links away k pages
                less in
            goes_on fuel a x xs (suc n) list ps free paged pos fits links away k pages less (
              list_loop_lem fuel
                (left fuel a x xs (suc n) list ps free paged pos fits links away k pages less) xs
                (suc n - k) _ _ p.free (subst AllWhole (sym same) whole.1) paged (omega arith)
                (omega (arith, p.sum)) p.links p.away (omega arith))
      ]
    ]
