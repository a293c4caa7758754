-- ===== src/ListAllocator/Portion.antt =====
-- A portion of the free memory that is taken out of the free list, whether a block or the end of one.
use bez_os.TableList.New.{pages_from, new_list_lem, length-pages_from, holds-pages_from}
use bez_os.TableList.Runs.{push_onto, push_pages_lem, length-push_onto}
use bez_os.TableList.Pages.{holds, Links, Links-frame, holds-not_null}
use bez_os.TableList.{PageTableAllocation, page_size, push_pages, new_list}
use bez_os.Prelude.Store.{write, write_same}
use bez_os.ControlBlock.Spaced.{AllFit-at, covers}
use bez_os.ControlBlock.Extents.{extents, extent, covered, Extent, total}
use bez_os.TableAllocator.Cut.{
  IsSplit, parted, popped, tail, tail_lem, IsFreeList-parted, IsSplitBy, takes_part, behind,
  IsFreeList-popped, take_end_lem, takes_all, parted_next, parted_prev,
}
use bez_os.TableAllocator.Free.{IsFreeList, IsFreeList-frame}
use mathlib.Core.Path.{subst}
use bez_os.Prelude.{
  ◌==◌, Bool-cases, length, ℕ, ◌+◌, ◌*◌, ◌%◌, ◌^◌, ◌≤◌, ◌<◌, ◌≡◌, refl, sym, ap, ◌∙◌, ◌≢◌, ◌⊎◌, inl,
  inr, true, false, ◌&&◌, not, List, [], ◌∷◌, arith,
}
use bez_os.ControlBlock.{Memory}
use bez_os.TableAllocator.{PageTableAllocator, remove_block}

-- The free list without the portion of `n` bytes at `block`. What lies outside the free memory is as it was.
pub record Portion (m : Memory) (xs : List ℕ) (after : Memory) (front : ℕ) (rest : List ℕ)
    (block n : ℕ) : Type 0 where
  pub free : IsFreeList after front rest
  pub split : IsSplit n (extents m xs) (extent after block) (extents after rest)
  pub kept :
      (b : ℕ)
      → b ≢ 0
      → covered b (extents m xs) ≡ false
      → (after.next b ≡ m.next b) × (after.prev b ≡ m.prev b)

module _ (a : PageTableAllocator) (x : ℕ) (xs : List ℕ) (size : ℕ)
    (free : IsFreeList a.memory a.front (x ∷ xs)) (pos : 0 < size) where
  abbrev m : Memory
  m = a.memory

  -- The end of the first block.
  pub part_lem :
      size < m.size x
      → Portion m (x ∷ xs) (parted a x xs size free pos) x (x ∷ xs) (tail a x xs size free pos) size
  part_lem lt =
      let (at_tail, ne, out, lies) = tail_lem a x xs size free pos lt in
      record {
        free = IsFreeList-parted a x xs size free pos lt;
        split =
            subst (IsSplitBy size (extents m (x ∷ xs))) (takes_part a x xs size free pos lt)
              (take_end_lem size (extents m (x ∷ xs)) pos free.fit free.disjoint);
        kept = λ b ne0 away. (
          parted_next a x xs size free pos lt b (ground (arith, away, lies)),
          parted_prev a x xs size free pos lt b (ground (arith, away, lies)) ne0,
        );
      }

  -- The block behind the first is covered.
  behind_covered : (m.next x ≡ 0) ⊎ (covered (m.next x) (extents m (x ∷ xs)) ≡ true)
  behind_covered = elim (behind a x xs size free pos) [
    | inl none_behind ↦ inl none_behind
    | inr (i, back) ↦
        let f = AllFit-at m (m.next x) xs free.fit.3 i in
        inr (ground (arith, covers m (m.next x) (m.next x) xs i (ground (arith, f.1))))
  ]

  -- The whole first block.
  pub whole_lem :
      m.size x ≡ size → Portion m (x ∷ xs) (popped a x xs size free pos) (m.next x) xs x size
  whole_lem fits = record {
    free = IsFreeList-popped a x xs size free pos;
    split =
        subst (IsSplitBy size (extents m (x ∷ xs))) (takes_all a x xs size free pos fits)
          (take_end_lem size (extents m (x ∷ xs)) pos free.fit free.disjoint);
    kept = λ b ne0 away. (ground arith, ground (arith, behind_covered, away));
  }

  -- To remove a block that no longer is the head changes nothing.
  pub removed_lem : remove_block (popped a x xs size free pos) x ≡ popped a x xs size free pos
  unfolding remove_block
  removed_lem =
      let p = popped a x xs size free pos in
      let alone : (p.prev x == 0) ≡ true = ground (arith, free.list.chain.2) in
      let here : p.prev x ≡ 0 = ground (arith, alone) in
      rw alone (elim (Bool-cases (p.next x == 0)) [
        | inl zero_next ↦ rw zero_next refl
        | inr more ↦
            let there : p.prev (p.next x) ≡ 0 = ground arith in
            rw more (
              ap (λ v. record p { prev = write p.prev (p.next x) v }) (here ∙ sym there)
              ∙ ap (λ f. record p { prev = f }) (write_same p.prev (p.next x)))
      ])

-- Whether each extent is made of whole pages.
abbrev pub AllWhole : List Extent → Type 0
AllWhole [] = Unit
AllWhole (e ∷ es) = (e.size % page_size ≡ 0) × AllWhole es

-- A list of pages and the free memory have no page in common.
abbrev pub IsAway : List PageTableAllocation → List Extent → Type 0
IsAway ps es = (b : ℕ) → (holds b ps && covered b es) ≡ false

-- What it is to link the pages of a portion in the memory `m2`.
pub record Pages (m : Memory) (xs : List ℕ) (front : ℕ) (rest : List ℕ) (n : ℕ)
    (ps : List PageTableAllocation) (m2 : Memory) (list : PageTableAllocation)
    (qs : List PageTableAllocation) : Type 0 where
  pub free : IsFreeList m2 front rest
  pub sum : total (extents m xs) ≡ n * page_size + total (extents m2 rest)
  pub shrinks : (b : ℕ) → (covered b (extents m2 rest) && not (covered b (extents m xs))) ≡ false
  pub links : Links m2 list qs
  pub many : length qs ≡ n + length ps
  pub away : IsAway qs (extents m2 rest)
  pub from :
      (b : ℕ) → (holds b qs ≡ false) ⊎ ((holds b ps ≡ true) ⊎ (covered b (extents m xs) ≡ true))

-- `push` of the pages of a portion to a list of pages that are not free.
pub push-Portion :
    (m : Memory) (xs : List ℕ) (m1 : Memory) (front : ℕ) (rest : List ℕ) (a : PageTableAllocation)
    (n : ℕ) (list : PageTableAllocation) (ps : List PageTableAllocation)
    → Portion m xs m1 front rest a.block (n * page_size)
    → Links m list ps
    → IsAway ps (extents m xs)
    → Pages m xs front rest n ps
        (push_pages n m1 list a 0).0
        (push_pages n m1 list a 0).1
        (push_onto n a 0 ps)
push-Portion m xs m1 front rest a n list ps p l away =
    let (fixed, sum, parts, apart, fit) = p.split in
    let held : (b : ℕ) → holds b ps ≡ true → (b ≢ 0) × (covered b (extents m xs) ≡ false) =
      λ b i. (holds-not_null m list ps b l i, ground (arith, away b)) in
    let l1 = Links-frame m m1 list ps l (λ b i. p.kept b (held b i).0 (held b i).1) in
    let r =
      push_pages_lem n m1 list a 0 ps fit.0 (ground (arith, fit.2, fixed)) l1
        (λ b. ground (arith, away b, parts b, fixed)) in
    let m2 = (push_pages n m1 list a 0).0 in
    let (free, same) =
      IsFreeList-frame m1 m2 front rest p.free
        (λ b i. elim (r.same b) [
          | inl run ↦ absurd (ground (arith, apart b, fixed))
          | inr untouched ↦ untouched
        ])
        r.sizes.0 r.sizes.1 in
    record {
      free = free;
      sum = omega (arith, sum, ap total same);
      shrinks = λ b. ground (arith, parts b, ap (covered b) same);
      links = r.links;
      many = length-push_onto n a 0 ps;
      away = λ b. ground (arith, r.within b, away b, parts b, apart b, fixed, ap (covered b) same);
      from = λ b. ground (arith, r.within b, parts b, fixed);
    }

-- A new list of the pages of a portion.
pub new-Portion :
    (m : Memory) (xs : List ℕ) (m1 : Memory) (front : ℕ) (rest : List ℕ) (a : PageTableAllocation)
    (n : ℕ)
    → Portion m xs m1 front rest a.block (n * page_size)
    → 0 < n
    → Pages m xs front rest n [] (new_list m1 a n).0 (new_list m1 a n).1 (pages_from n a 0)
new-Portion m xs m1 front rest a n p pos =
    let (fixed, sum, parts, apart, fit) = p.split in
    let r = new_list_lem m1 a n pos fit.0 (ground (arith, fit.2, fixed)) in
    let m2 = (new_list m1 a n).0 in
    let (free, same) =
      IsFreeList-frame m1 m2 front rest p.free
        (λ b i. elim (r.same b) [
          | inl run ↦ absurd (ground (arith, apart b, fixed))
          | inr untouched ↦ untouched
        ])
        r.sizes.0 r.sizes.1 in
    let bound : a.block + (0 + n) * page_size ≤ 2 ^ 64 = ground (arith, fit.2, fixed) in
    record {
      free = free;
      sum = omega (arith, sum, ap total same);
      shrinks = λ b. ground (arith, parts b, ap (covered b) same);
      links = r.links;
      many = omega (arith, length-pages_from n a 0);
      away =
          λ b. ground (arith, holds-pages_from n a 0 b bound, apart b, fixed, ap (covered b) same);
      from = λ b. ground (arith, holds-pages_from n a 0 b bound, parts b, fixed);
    }
