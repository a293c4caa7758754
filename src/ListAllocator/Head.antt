-- ===== src/ListAllocator/Head.antt =====
-- `AllocateHead`.
use bez_os.TableList.New.{new_list_lem, pages_from}
use bez_os.TableAllocator.Cut.{popped, popped_size, tail_lem, popped_slide, parted, tail}
use bez_os.ControlBlock.{Memory}
use bez_os.ControlBlock.Extents.{extents, extents-same}
use bez_os.ListAllocator.Portion.{Pages, AllWhole, whole_lem, Portion, part_lem, new-Portion}
use bez_os.TableAllocator.Free.{IsFreeList}
use bez_os.TableList.{PageTableAllocation, page_size, new_list}
use mathlib.Core.Path.{subst}
use bez_os.Prelude.{
  ltb, ◌==◌, Bool-cases, length, ℕ, ◌-◌, ◌*◌, ◌/◌, ◌^◌, ◌≤◌, ◌<◌, ◌≡◌, refl, sym, ap, ap₂, ◌∙◌, ◌⊎◌,
  inl, inr, true, false, some, List, [], ◌∷◌, arith,
}
use bez_os.TableAllocator.{PageTableAllocator, mul_word, split_block}
use bez_os.ListAllocator.{allocate_head, split_off}

-- What `AllocateHead` for `n` pages comes to, where `remaining` of them are still to be found.
pub record Begun (a : PageTableAllocator) (xs : List ℕ) (n : ℕ) : Type 0 where
  pub after : PageTableAllocator
  pub rest : List ℕ
  pub list : PageTableAllocation
  pub linked : List PageTableAllocation
  pub remaining : ℕ
  pub comes_to : allocate_head a n ≡ some (after, remaining, list)
  pub fewer : remaining ≤ n
  pub found : Pages a.memory xs after.front rest (n - remaining) [] after.memory list linked
  pub keeps_block_size : after.block_size ≡ a.block_size
  pub goes_on : (remaining ≡ 0) ⊎ (AllWhole (extents after.memory rest) × (length rest < length xs))

module _ (a : PageTableAllocator) (x : ℕ) (xs : List ℕ) (n : ℕ)
    (free : IsFreeList a.memory a.front (x ∷ xs)) (whole : AllWhole (extents a.memory (x ∷ xs)))
    (paged : a.block_size ≡ page_size) (pos : 0 < n) (fits : n * page_size < 2 ^ 64) where
  abbrev m : Memory
  m = a.memory

  abbrev size : ℕ
  size = n * page_size

  pos_size : 0 < size
  pos_size = omega arith

  asked : mul_word n a.block_size ≡ size
  asked = rw paged (ground arith)

  pages_asked : size / a.block_size ≡ n
  pages_asked = let e : size / page_size ≡ n = omega arith in ap (λ d. size / d) paged ∙ e

  at_front : a.front ≡ x
  at_front = free.list.chain.0

  linked_up : (m.prev a.front == 0) ≡ true
  linked_up = ap (λ b. m.prev b == 0) at_front ∙ ground (arith, free.list.chain.2)

  -- The end of the first block is enough.
  head_part : size < m.size x → Begun a (x ∷ xs) n
  unfolding allocate_head split_off split_block
  head_part lt =
      let p = part_lem a x xs size free pos_size lt in
      let room : ltb size (m.size a.front) ≡ true =
        ap (λ b. ltb size (m.size b)) at_front ∙ ground arith in
      let t = tail_lem a x xs size free pos_size lt in
      let m1 = parted a x xs size free pos_size in
      let alloc : PageTableAllocation = record {
        block = tail a x xs size free pos_size;
        slide = m1.slide (tail a x xs size free pos_size);
      } in
      let all : n - 0 ≡ n = omega arith in
      record {
        after = record a { memory = (new_list m1 alloc n).0; front = x };
        rest = x ∷ xs;
        list = (new_list m1 alloc n).1;
        linked = pages_from n alloc 0;
        remaining = 0;
        comes_to = rw (linked_up, asked, room, at_front, t.0, pages_asked) refl;
        fewer = omega arith;
        found = rw all (new-Portion m (x ∷ xs) m1 x (x ∷ xs) alloc n p pos);
        keeps_block_size = refl;
        goes_on = inl refl;
      }

  abbrev m1 : Memory
  m1 = popped a x xs size free pos_size

  abbrev alloc : PageTableAllocation
  alloc = record { block = x; slide = m1.slide x }

  -- The whole first block is just enough.
  head_whole : m.size x ≡ size → Begun a (x ∷ xs) n
  unfolding allocate_head
  head_whole fits_whole =
      let p = whole_lem a x xs size free pos_size fits_whole in
      let small : ltb size (m.size a.front) ≡ false =
        ap (λ b. ltb size (m.size b)) at_front ∙ ground arith in
      let equal : (m.size a.front == size) ≡ true =
        ap (λ b. m.size b == size) at_front ∙ ground arith in
      let all : n - 0 ≡ n = omega arith in
      record {
        after = record a { memory = (new_list m1 alloc n).0; front = m.next x };
        rest = xs;
        list = (new_list m1 alloc n).1;
        linked = pages_from n alloc 0;
        remaining = 0;
        comes_to = rw (linked_up, asked, small, equal, at_front, pages_asked) refl;
        fewer = omega arith;
        found = rw all (new-Portion m (x ∷ xs) m1 (m.next x) xs alloc n p pos);
        keeps_block_size = refl;
        goes_on = inl refl;
      }

  -- The first block is not enough: all its `k` pages are taken.
  head_all : (k : ℕ) → m.size x ≡ k * page_size → k < n → Begun a (x ∷ xs) n
  unfolding allocate_head
  head_all k pages less =
      let p : Portion m (x ∷ xs) m1 (m.next x) xs x (k * page_size) =
        whole_lem a x xs (k * page_size) free (ground (arith, free.fit.1)) pages in
      let some_pages : 0 < k = ground (arith, free.fit.1) in
      let small : ltb size (m.size a.front) ≡ false =
        ap (λ b. ltb size (m.size b)) at_front ∙ ground arith in
      let short : (m.size a.front == size) ≡ false =
        ap (λ b. m.size b == size) at_front ∙ ground arith in
      let whole_pages : (k * page_size) / page_size ≡ k = omega arith in
      let count : m.size a.front / a.block_size ≡ k =
        ap₂ (λ b d. m.size b / d) at_front paged ∙ ap (λ c. c / page_size) pages ∙ whole_pages in
      let now = new_list_lem m1 alloc k some_pages free.fit.0 (ground (arith, free.fit.2)) in
      let sizes = now.sizes.0 ∙ popped_size a x xs size free pos_size in
      let slides = now.sizes.1 ∙ popped_slide a x xs size free pos_size in
      let same : extents (new_list m1 alloc k).0 xs ≡ extents m xs =
        extents-same m (new_list m1 alloc k).0 xs
          (λ b i. (ap (λ f. f b) sizes, ap (λ f. f b) slides)) in
      let taken : n - (n - k) ≡ k = omega arith in
      record {
        after = record a { memory = (new_list m1 alloc k).0; front = m.next x };
        rest = xs;
        list = (new_list m1 alloc k).1;
        linked = pages_from k alloc 0;
        remaining = n - k;
        comes_to = rw (linked_up, asked, small, short, count, at_front) refl;
        fewer = omega arith;
        found = rw taken (new-Portion m (x ∷ xs) m1 (m.next x) xs alloc k p some_pages);
        keeps_block_size = refl;
        goes_on = inr (subst AllWhole (sym same) whole.1, omega arith);
      }

  pub head_found : Begun a (x ∷ xs) n
  head_found =
      let k = m.size x / page_size in
      let pages : m.size x ≡ k * page_size = omega (arith, whole.0) in
      elim (Bool-cases (ltb size (m.size x))) [
        | inl large ↦ head_part (ground arith)
        | inr small ↦ elim (Bool-cases (m.size x == size)) [
          | inl equal ↦ head_whole (ground arith)
          | inr short ↦ head_all k pages (ground arith)
        ]
      ]
