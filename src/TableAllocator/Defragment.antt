-- ===== src/TableAllocator/Defragment.antt =====
-- `PageTableAllocator::defragment`.
use bez_os.ControlBlock.Compact.{compact_lem}
use bez_os.ControlBlock.Chain.{has}
use bez_os.ControlBlock.Rising.{sum_of}
use bez_os.ControlBlock.Extents.{
  extents, AllFit, total, IsApart, extents-same, covered, Extent, merged, adjacent, grow,
  AllFit-grow, merged-IsApart, total-merged, covered-merged,
}
use bez_os.ControlBlock.Order.{Ordered, sort_blocks_lem, head_lem}
use bez_os.ControlBlock.Spaced.{
  covered-members, IsSpaced, AllFit-at, AllFit-all, rising-IsSpaced, total-extents, disjoint_at,
  merged-IsSpaced, IsSpaced-IsDisjoint, covered-members,
}
use bez_os.TableAllocator.Free.{IsFreeList}
use bez_os.Prelude.{
  ◌==◌, Bool-cases, length, ℕ, ◌<◌, ◌≡◌, refl, sym, ap, ◌∙◌, inl, inr, true, false, some, List, [],
  ◌∷◌, arith,
}
use mathlib.Core.Path.{subst}
use bez_os.TableAllocator.{PageTableAllocator, defragment, Memory}

-- What `defragment` comes to.
pub record Defragmented (fuel : ℕ) (a : PageTableAllocator) (xs : List ℕ) : Type 0 where
  pub after : PageTableAllocator
  pub blocks : List ℕ
  pub comes_to : defragment fuel a ≡ some after
  pub free : IsFreeList after.memory after.front blocks
  pub spaced : IsSpaced (extents after.memory blocks)
  pub apart : IsApart (extents after.memory blocks)
  pub keeps_total : total (extents after.memory blocks) ≡ total (extents a.memory xs)
  pub keeps_covered :
      (p : ℕ) → covered p (extents after.memory blocks) ≡ covered p (extents a.memory xs)
  pub keeps_block_size : after.block_size ≡ a.block_size

module _ (m : Memory) (fuel first : ℕ) (xs : List ℕ) (free : IsFreeList m first xs)
    (s : Ordered m fuel first xs) where
  -- The blocks in their new order stand for the memory they stood for.
  extents-ordered : (ys : List ℕ) → extents s.after ys ≡ extents m ys
  extents-ordered ys =
      extents-same m s.after ys (λ a i. (ap (λ f. f a) s.sizes.0, ap (λ f. f a) s.sizes.1))

  AllFit-ordered : AllFit (extents m s.blocks)
  AllFit-ordered = AllFit-all m s.blocks (λ b i. AllFit-at m b xs free.fit (sym (s.members b) ∙ i))

  IsSpaced-ordered : IsSpaced (extents m s.blocks)
  IsSpaced-ordered = rising-IsSpaced m s.blocks s.rising AllFit-ordered (λ a b c i j.
      disjoint_at m a b c xs free.disjoint (sym (s.members b) ∙ i) (sym (s.members c) ∙ j))

  total-ordered : total (extents m s.blocks) ≡ total (extents m xs)
  total-ordered = total-extents m s.blocks ∙ s.sums m.size ∙ sym (total-extents m xs)

AllFit-merged : (e : Extent) (fs : List Extent) → AllFit (e ∷ fs) → AllFit (merged e fs)
AllFit-merged e [] fit = fit
AllFit-merged e (f ∷ fs) fit = elim (Bool-cases (adjacent e f)) [
  | inl joins ↦ rw joins (AllFit-merged (grow e f) fs (AllFit-grow e f fs joins fit))
  | inr stops ↦ rw stops (fit.0, fit.1, fit.2, AllFit-merged f fs fit.3)
]

length-sum_of : (xs : List ℕ) → length xs ≡ sum_of (λ x. 1) xs
length-sum_of [] = refl
length-sum_of (x ∷ xs) = omega (arith, length-sum_of xs)

-- A list of two blocks or more is put in order and merged.
defragment_run :
    (fuel : ℕ) (a : PageTableAllocator) (x y : ℕ) (xs : List ℕ)
    → IsFreeList a.memory a.front (x ∷ y ∷ xs)
    → length (x ∷ y ∷ xs) < fuel
    → Defragmented fuel a (x ∷ y ∷ xs)
unfolding defragment
defragment_run fuel a x y xs free lt =
    let c = free.list.chain in
    let all = x ∷ y ∷ xs in
    let first_in : has a.front all ≡ true = ground (arith, c.0) in
    let s = sort_blocks_lem a.memory fuel a.front x (y ∷ xs) a.front free.list first_in lt in
    let inside_now = s.members a.front ∙ first_in in
    let len : length s.blocks ≡ length all =
      length-sum_of s.blocks ∙ s.sums (λ x. 1) ∙ sym (length-sum_of all) in
    let same = extents-ordered a.memory fuel a.front all free s s.blocks in
    let fit = AllFit-ordered a.memory fuel a.front all free s in
    let spaced = IsSpaced-ordered a.memory fuel a.front all free s in
    let at_front =
      head_lem s.after fuel s.first s.blocks a.front s.list inside_now (omega (arith, len)) in
    let r =
      compact_lem s.after fuel s.first a.front s.blocks s.list (subst AllFit (sym same) fit)
        inside_now (omega (arith, len)) in
    let (e, es, was, now) = r.stands_for in
    let whole : extents a.memory s.blocks ≡ e ∷ es = sym same ∙ was in
    let spaced_now =
      subst IsSpaced (sym now) (merged-IsSpaced e es (subst IsSpaced whole spaced)) in
    let at_head : (a.front == 0) ≡ false = ground (arith, c.0, c.1) in
    let more : (a.memory.next a.front == 0) ≡ false =
      ground (arith, ap a.memory.next c.0, c.4.0, c.4.1) in
    let unlinked : a.memory.prev a.front ≡ 0 = ap a.memory.prev c.0 ∙ c.2 in
    record {
      after = record a { memory = r.after; front = s.first };
      blocks = r.blocks;
      comes_to = rw (at_head, more, unlinked, s.comes_to, at_front, r.comes_to);
      free = record {
        list = r.list;
        fit = subst AllFit (sym now) (AllFit-merged e es (subst AllFit whole fit));
        disjoint = IsSpaced-IsDisjoint (extents r.after r.blocks) spaced_now;
      };
      spaced = spaced_now;
      apart = subst IsApart (sym now) (merged-IsApart e es);
      keeps_total =
          ap total now
          ∙ total-merged e es
          ∙ sym (ap total whole)
          ∙ total-ordered a.memory fuel a.front all free s;
      keeps_covered = λ p.
          ap (covered p) now
          ∙ covered-merged p e es
          ∙ sym (ap (covered p) whole)
          ∙ covered-members a.memory p s.blocks all s.members;
      keeps_block_size = refl;
    }

-- `defragment` of a well-formed free list comes to its end, given more fuel than there are free
-- blocks, and leaves a well-formed free list for the same memory: each block ends before the next
-- begins, and no block continues the one before it.
pub defragment_lem :
    (fuel : ℕ) (a : PageTableAllocator) (xs : List ℕ)
    → IsFreeList a.memory a.front xs
    → length xs < fuel
    → Defragmented fuel a xs
unfolding defragment
defragment_lem fuel a [] free lt = record {
  after = a;
  blocks = [];
  comes_to = rw free.list.chain.0;
  free = free;
  spaced = tt;
  apart = tt;
  keeps_total = refl;
  keeps_covered = λ p. refl;
  keeps_block_size = refl;
}
defragment_lem fuel a (x ∷ []) free lt = record {
  after = a;
  blocks = x ∷ [];
  comes_to =
      (let c = free.list.chain in
        let at_head : (a.front == 0) ≡ false = ground (arith, c.0, c.1) in
        let alone : a.memory.next a.front ≡ 0 = ap a.memory.next c.0 ∙ c.4.0 in
        rw (at_head, alone));
  free = free;
  spaced = tt;
  apart = tt;
  keeps_total = refl;
  keeps_covered = λ p. refl;
  keeps_block_size = refl;
}
defragment_lem fuel a (x ∷ y ∷ xs) free lt = defragment_run fuel a x y xs free lt
